-- ===== src/Chain/Sending/Breaker.antt =====
-- The breakers of transport_fallback.py, as automata that a walk of `send` moves.
use shogunet.Prelude.{string_eq, nat_eq}
use shogunet.Protocol.Envelope.{Envelope}
use shogunet.Chain.{Chain}
