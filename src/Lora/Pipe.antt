-- ===== src/Lora/Pipe.antt =====
-- `class _SerialPipe` of lora_transport.py: one direction of the byte pipe that stands in for a serial
-- port, and `create_pipe_pair`, which joins two ends.
use mathlib.Core.List.{append_assoc, append-nil}
use shogunet.Prelude.{
  ℕ, zero, suc, ◌-◌, ◌≤◌, ◌<◌, ◌≡◌, refl, sym, ap, ◌∙◌, inl, inr, Option, none, some, List, [], ◌∷◌,
  ◌++◌, Bool, true, false, leb, if◌then◌else◌, length, take, drop, arith, Bool-cases, length-append,
  length-take,
}

-- What an end has been sent, and whether it is closed.
pub record End : Type 0 where
  pub incoming : List (List ℕ)
  pub closed : Bool

-- Both ends of a link.
abbrev pub Link : Type 0
Link = End × End

abbrev pub create_pipe_pair : Link
create_pipe_pair =
    (record { incoming = []; closed = false }, record { incoming = []; closed = false })

-- `write` at the first end: `none` is the OSError, and a closed peer takes nothing
unfoldable pub write : List ℕ → Link → Link × Option ℕ
write bytes (here, there) =
    if here.closed
    then ((here, there), none)
    else if there.closed
    then ((here, there), some 0)
    else ((here, record there { incoming = there.incoming ++ bytes ∷ [] }), some (length bytes))

-- b"".join
abbrev pub join : List (List ℕ) → List ℕ
join [] = []
join (chunk ∷ chunks) = chunk ++ join chunks

-- while self._in and len(buf) < n: `need` bytes are missing
unfoldable pub read_from : ℕ → List (List ℕ) → List (List ℕ) × List ℕ
read_from zero chunks = (chunks, [])
read_from (suc need) [] = ([], [])
read_from (suc need) (chunk ∷ chunks) =
    let (left, bytes) = read_from (suc need - length chunk) chunks in
    if leb (length chunk) (suc need)
    then (left, chunk ++ bytes)
    else (drop (suc need) chunk ∷ chunks, take (suc need) chunk)

unfoldable pub read : ℕ → End → End × List ℕ
unfolding read_from
read n e =
    let (left, bytes) = read_from n e.incoming in
    if e.closed
    then (e, [])
    else if leb n 0
    then (record e { incoming = [] }, join e.incoming)
    else (record e { incoming = left }, bytes)

unfoldable pub close : End → End
close e = record e { closed = true }

take-drop : (n : ℕ) (xs : List ℕ) → take n xs ++ drop n xs ≡ xs
take-drop zero xs = refl
take-drop (suc n) [] = refl
take-drop (suc n) (x ∷ xs) = ap (◌∷◌ x) (take-drop n xs)

read_from-join :
    (n : ℕ) (chunks : List (List ℕ))
    → let (left, bytes) = read_from n chunks in
      (bytes ++ join left ≡ join chunks) × (length bytes ≤ n)
unfolding read_from
read_from-join zero chunks = (refl, omega arith)
read_from-join (suc need) [] = (refl, omega arith)
read_from-join (suc need) (chunk ∷ chunks) = elim (Bool-cases (leb (length chunk) (suc need))) [
  | inl fits ↦
      let rest = read_from-join (suc need - length chunk) chunks in
      rw fits (
        append_assoc chunk _ _ ∙ ap (λ (x : List ℕ). chunk ++ x) rest.0,
        ground (
          arith,
          rest.1,
          fits,
          length-append chunk (read_from (suc need - length chunk) chunks).1,
        ),
      )
  | inr long ↦ rw long (
    sym (append_assoc (take (suc need) chunk) (drop (suc need) chunk) (join chunks))
        ∙ ap (λ (x : List ℕ). x ++ join chunks) (take-drop (suc need) chunk),
    omega (arith, length-take (suc need) chunk),
  )
]

-- A read loses and reorders nothing: what it returns, followed by what stays in the pipe, is what was in
-- the pipe, and a read of at most `n` bytes returns no more.
pub read-join :
    (n : ℕ) (e : End)
    → e.closed ≡ false
    → ((read n e).1 ++ join (read n e).0.incoming ≡ join e.incoming)
      × (0 < n → length (read n e).1 ≤ n)
unfolding read
read-join zero e opened = rw opened (append-nil (join e.incoming), λ h. absurd (omega arith))
read-join (suc n) e opened =
    let positive : leb (suc n) 0 ≡ false = ground arith in
    rw (opened, positive)
      ((read_from-join (suc n) e.incoming).0, λ h. (read_from-join (suc n) e.incoming).1)
