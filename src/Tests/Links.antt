-- ===== src/Tests/Links.antt =====
-- TCP connections: a handshake, and a pause within a frame.
use shogunet.Prelude.{ℕ, suc, ◌≡◌, refl, arith, none, some, List, [], ◌∷◌, All, ◌==◌, string_eq}
use shogunet.Protocol.Struct.{pack32}
use shogunet.Tcp.{Hooks, new_tcp, close_conn}
use shogunet.Tcp.Reading.{bytes, timeout, read_loop, closed, read_loop-timeout}
use shogunet.Tcp.Admission.{FromTrusted, Sound}
use shogunet.Tcp.Admission.Run.{Event, connects, reads, defaults, run, inbox-run}
use shogunet.Tests.Values.{python, heartbeat_frame}

-- Only agent a is paired.
abbrev paired : Hooks
paired = record { admission_check = some (λ name. name == "a"); version_check = none }

abbrev events : List Event
events = connects 1 "addr" "host" ∷ reads 0 1 heartbeat_frame ∷ defaults "hub" ∷ []

inbox-run_example :
    All (FromTrusted paired ("hub" ∷ [])) (run python paired events (new_tcp 4)).inbox
    × All (λ p. Sound paired ("hub" ∷ []) p.1) (run python paired events (new_tcp 4)).objects
inbox-run_example = inbox-run python paired ("hub" ∷ []) 4 events (tt, (tt, (refl, tt)))

abbrev tail : List ℕ
tail = 0 ∷ 0 ∷ 1 ∷ 0 ∷ 0 ∷ 0 ∷ 0 ∷ 7 ∷ 0 ∷ 0 ∷ 0 ∷ 9 ∷ 1 ∷ 2 ∷ 3 ∷ 4 ∷ 5 ∷ 6 ∷ 7 ∷ 8 ∷ 9 ∷ []

read_loop-timeout_example :
    ((read_loop python paired
        (suc (suc 0))
        0
        1
        (bytes (pack32 25 []) ∷ bytes (b'S' ∷ b'G' ∷ b'N' ∷ 1 ∷ tail) ∷ [])
        (new_tcp 4)).2
      ≡ (b'S' ∷ b'G' ∷ b'N' ∷ 1 ∷ tail) ∷ [])
    × (read_loop python paired
          (suc (suc 0))
          0
          1
          (bytes (pack32 25 []) ∷ timeout ∷ bytes (b'S' ∷ b'G' ∷ b'N' ∷ 1 ∷ tail) ∷ [])
          (new_tcp 4)
        ≡ (close_conn 1 (new_tcp 4), closed, []))
read_loop-timeout_example =
    read_loop-timeout python paired 0 0 1 25 tail [] (new_tcp 4) refl (omega arith)
