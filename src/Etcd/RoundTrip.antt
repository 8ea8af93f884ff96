-- ===== src/Etcd/RoundTrip.antt =====
-- encodeValue and decodeValue of common/etcd_client.cpp on the value of a service.
use my_taskflow_system.Common.{◌≡◌, ◌≢◌, refl, ◌∷◌, Text, codes, arith}
use my_taskflow_system.Common.Int.{ℤ, pos}
use my_taskflow_system.Common.Maps.{Map}
use my_taskflow_system.Common.Exec.{Result, ok, throw}
use my_taskflow_system.Etcd.Codec.{
  encode_byte, encode_value, decode_value, decode_from, escape_at, stoi_hex, hex_value, prepend,
}
use my_taskflow_system.Common.Decimal.{skip_spaces}
use my_taskflow_system.Etcd.Services.{service_value}

quote_lost : (r : Result Text) (t : Text) → prepend b'{' (prepend 173 r) ≢ ok (b'{' ∷ b'"' ∷ t)
quote_lost (ok s) t = λ e. ground arith
quote_lost (throw x) t = λ e. cc

hex_22ad : stoi_hex (codes "22ad") ≡ ok (pos 8877)
unfolding stoi_hex skip_spaces hex_value
hex_22ad = refl

-- The value of a service never reads back as it was written: decodeValue takes the first two
-- letters of `address` for the last two digits of the escaped quotation mark before it.
pub service_value_lost :
    (address : Text) (port : ℤ) (metadata : Map Text)
    → decode_value (encode_value (service_value address port metadata))
      ≢ ok (service_value address port metadata)
unfolding decode_value encode_value encode_byte decode_from escape_at service_value
service_value_lost address port metadata = rw hex_22ad (quote_lost _ _)
