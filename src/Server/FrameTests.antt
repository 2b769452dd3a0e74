-- ===== src/Server/FrameTests.antt =====
-- The codec with a concrete library.
use sccache.Prelude.{ℕ, codes, text_eq, [], ◌∷◌, ◌++◌, ◌≡◌, ◌≢◌, refl, sym, ap, some, true}
use sccache.Protocol.Request.{ClientRequest}
use sccache.Protocol.Request as Request
use sccache.Client.Wire.{Bytes}
use sccache.Server.Codec.{
  Protobuf, Parsed, parsed, wire_error, decode, on_parsed, drain_to, drain, feed,
}
use sccache.Server.Frames
use sccache.Server.Frames.{FrameLaws}

program : Unit {0}
unfolding text_eq decode on_parsed drain_to drain feed
program = tt

abbrev get_stats : ClientRequest
get_stats = record { request = some Request.get_stats }

-- The request is two bytes.
abbrev parse : Bytes → Parsed
parse [] = wire_error (codes "truncated message")
parse (a ∷ []) = wire_error (codes "truncated message")
parse (a ∷ b ∷ bs) = parsed get_stats

abbrev protobuf : Protobuf
protobuf = record { parse = parse; write = λ r. some (1 ∷ 2 ∷ []); write_response = λ r. some [] }

cons_nil : {y : ℕ} {ys : Bytes} → ◌≡◌ {A = Bytes} (y ∷ ys) [] → ⊥
cons_nil h = cc

tail_eq : {x y : ℕ} {xs ys : Bytes} → x ∷ xs ≡ y ∷ ys → xs ≡ ys
tail_eq h = cc

parse_part :
    (xs : Bytes) (y : ℕ) (ys : Bytes)
    → ◌≡◌ {A = Bytes} (1 ∷ 2 ∷ []) (xs ++ y ∷ ys)
    → xs ≢ []
    → parse xs ≡ wire_error (codes "truncated message")
parse_part [] y ys h n = absurd (n refl)
parse_part (a ∷ []) y ys h n = refl
parse_part (a ∷ b ∷ []) y ys h n = absurd (cons_nil (sym (tail_eq (tail_eq h))))
parse_part (a ∷ b ∷ c ∷ xs) y ys h n = absurd (cons_nil (sym (tail_eq (tail_eq h))))

protobuf-FrameLaws : FrameLaws protobuf
protobuf-FrameLaws = record {
  Ready = λ r. r ≡ get_stats;
  bytes = λ r. 1 ∷ 2 ∷ [];
  write_eq = λ r h. refl;
  parse_whole = λ r rest h. ap parsed (sym h);
  parse_part = λ r xs y ys ready h n. parse_part xs y ys h n;
  some_bytes = λ r h. cons_nil h;
}

feed-stream_example :
    feed protobuf [] ((1 ∷ []) ∷ (2 ∷ 1 ∷ 2 ∷ []) ∷ [])
    ≡ record { requests = get_stats ∷ get_stats ∷ []; rest = []; fine = true }
unfolding protobuf-FrameLaws
feed-stream_example =
    Frames.feed-stream protobuf protobuf-FrameLaws ((1 ∷ []) ∷ (2 ∷ 1 ∷ 2 ∷ []) ∷ [])
      (get_stats ∷ get_stats ∷ []) (refl, (refl, tt)) refl
