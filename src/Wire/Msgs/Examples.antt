-- ===== src/Wire/Msgs/Examples.antt =====
-- src/wire/msgs.rs: encoded messages, with any 33 bytes a key and any 64 bytes a signature.
use keraunos.Prelude.{
  ◌≡◌, refl, arith, true, [], ◌∷◌, ◌++◌, some, Bytes, Bool, replicate, be_bytes, ◌%◌, ◌==◌,
  if◌then◌else◌,
}
use keraunos.Wire.Tlv.{contains}
use keraunos.Wire.Ser.{ok, err, unknown_message_type}
use keraunos.Wire.Msgs.Data.{ClosingSigned, closing_signed, unknown}
use keraunos.Wire.Msgs.Write.{encode}
use keraunos.Wire.Msgs.Decode.{decode}
use keraunos.Wire.Msgs.RoundTrip.Codec.{decode-encode, decode-unknown}

abbrev any_bytes : Bytes → Bool
any_bytes b = true

abbrev an_offer : ClosingSigned
an_offer = record {
  channel_id = replicate 32 7;
  fee_satoshis = 300;
  signature = replicate 64 1;
  fee_range = some (record { min_fee_satoshis = 180; max_fee_satoshis = 600 });
}

decode-encode_example :
    decode any_bytes any_bytes (encode (closing_signed an_offer) ++ [])
    ≡ ok (closing_signed an_offer)
decode-encode_example =
    decode-encode any_bytes any_bytes (closing_signed an_offer) []
      (refl, omega arith, (refl, refl), (omega arith, omega arith)) refl

decode-unknown_example :
    decode any_bytes any_bytes (be_bytes 2 9998 ++ 1 ∷ [])
    ≡ (if 9998 % 2 == 1 then ok (unknown 9998 (1 ∷ [])) else err (unknown_message_type 9998))
unfolding contains
decode-unknown_example = decode-unknown any_bytes any_bytes 9998 (1 ∷ []) (omega arith) refl
