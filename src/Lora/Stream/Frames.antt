-- ===== src/Lora/Stream/Frames.antt =====
-- The bytes of a stream of frames, and where the next frame in them ends.

use shogunet.Prelude.{
  ℕ, suc, ◌+◌, ◌<◌, ◌≤◌, ◌≡◌, refl, ap, ◌∙◌, List, [], ◌∷◌, ◌++◌, ltb, if◌then◌else◌, nat_eq,
  length, take, drop, arith, length-append,
}
use shogunet.Protocol.Registry.{max_envelope_bytes}
use shogunet.Protocol.Struct.{unpack32, unpack32-pack32}
use shogunet.Lora.{starved, oversized, framed, wire, next_length, next_frame}

-- The stream of some frames.
abbrev pub wires : List (List ℕ) → List ℕ
wires [] = []
wires (f ∷ fs) = wire f ++ wires fs

-- A frame that the receiver does not refuse by its length.
abbrev pub Fits : List ℕ → Type 0
Fits f = length f ≤ max_envelope_bytes

pub take-append : (xs ys : List ℕ) → take (length xs) (xs ++ ys) ≡ xs
take-append [] ys = refl
take-append (x ∷ xs) ys = ap (◌∷◌ x) (take-append xs ys)

pub drop-prefix : (xs ys : List ℕ) → drop (length xs) (xs ++ ys) ≡ ys
drop-prefix [] ys = refl
drop-prefix (x ∷ xs) ys = drop-prefix xs ys

-- A list that begins two ways, the shorter way first.
pub split_prefix :
    (pre more xs ys : List ℕ)
    → xs ++ ys ≡ pre ++ more
    → length pre ≤ length xs
    → (rest : List ℕ) × (xs ≡ pre ++ rest) × (rest ++ ys ≡ more)
split_prefix [] more xs ys e h = (xs, refl, e)
split_prefix (p ∷ pre) more [] ys e h = absurd (omega arith)
split_prefix (p ∷ pre) more (x ∷ xs) ys e h =
    let (rest, same, follows) = split_prefix pre more xs ys (cc) (omega arith) in
    (rest, cc, follows)

pub next_length-wire : (f more : List ℕ) → Fits f → next_length (wire f ++ more) ≡ length f
next_length-wire f more fits = unpack32-pack32 (length f) (omega arith)

pub drop-drop_head :
    (a b c d len : ℕ) (rest : List ℕ) → drop (len + 4) (a ∷ b ∷ c ∷ d ∷ rest) ≡ drop len rest
drop-drop_head a b c d len rest =
    let e : len + 4 ≡ suc (suc (suc (suc len))) = omega arith in rw e refl

-- The test, behind the four bytes of the length.
pub next_frame_by_length :
    (a b c d len : ℕ) (rest : List ℕ)
    → unpack32 a b c d ≡ len
    → next_frame (a ∷ b ∷ c ∷ d ∷ rest) ≡ (
        if ltb max_envelope_bytes len
        then oversized
        else if ltb (length rest) len
        then starved
        else framed (take len rest) (drop len rest))
unfolding next_frame
next_frame_by_length a b c d len rest e =
    let step : drop (len + 4) (a ∷ b ∷ c ∷ d ∷ rest) ≡ drop len rest =
      drop-drop_head a b c d len rest in
    ground (arith, e, step)

pub next_frame-wire : (f more : List ℕ) → Fits f → next_frame (wire f ++ more) ≡ framed f more
next_frame-wire f more fits =
    next_frame_by_length _ _ _ _ (length f) (f ++ more) (next_length-wire f more fits)
    ∙ ground (arith, fits, length-append f more, take-append f more, drop-prefix f more)

-- Too few bytes of a frame.
pub next_frame-short :
    (f more buf unread : List ℕ)
    → Fits f
    → buf ++ unread ≡ wire f ++ more
    → length buf < length (wire f)
    → next_frame buf ≡ starved
unfolding next_frame
next_frame-short f more [] unread fits e short = refl
next_frame-short f more (a ∷ []) unread fits e short = refl
next_frame-short f more (a ∷ b ∷ []) unread fits e short = refl
next_frame-short f more (a ∷ b ∷ c ∷ []) unread fits e short = refl
next_frame-short f more (a ∷ b ∷ c ∷ d ∷ buf) unread fits e short =
    let same : unpack32 a b c d ≡ length f =
      cc (ap (λ (bytes : List ℕ). next_length bytes) e, next_length-wire f more fits) in
    next_frame_by_length a b c d (length f) buf same ∙ ground (arith, fits, short)
