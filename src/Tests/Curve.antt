-- ===== src/Tests/Curve.antt =====
-- The Hilbert codec at level 3.
use fluidloom.Prelude.{◌≡◌, refl, pos, negsuc, arith}
use fluidloom.Hilbert.Codec.{encode, encode_loop, truncate, clear_high, hilbert_table, decode}
use fluidloom.Hilbert.RoundTrip.{decode-encode}

decode-encode_example :
    decode (encode (pos 5) (negsuc 0) (pos 6) 3) 3 ≡ record { x = pos 5; y = pos 7; z = pos 6 }
unfolding truncate
decode-encode_example = decode-encode (pos 5) (negsuc 0) (pos 6) 3 (omega arith)

encode_run : encode (pos 5) (negsuc 0) (pos 6) 3 ≡ 354
unfolding encode encode_loop truncate clear_high hilbert_table
encode_run = refl
