-- ===== src/RoundTrip.antt =====
-- From common/frame.c to common/frame_parser.c: a frame that a builder wrote, sent over a link, is
-- found by the parser and decoded to what the builder was given.
mod Tests
use smart_gateway.Prelude.{
  ℕ, ◌%◌, ◌≤◌, ◌<◌, ◌≡◌, ◌∙◌, refl, ap, arith, false, List, [], ◌∷◌, Option, some, length, All,
  All-mono,
}
use smart_gateway.Prelude.Text.{Text, HasNoNul, text_eq}
use smart_gateway.Crc16.{crc16_ccitt_false}
use smart_gateway.Frame.{
  header, build_kv_frame, data_type, cmd_type, ack_type, frame_build_data_kv,
  frame_build_command_kv, frame_build_ack_kv,
}
use smart_gateway.Frame.Kinds.{Kv, FitsKv, Result, ok}
use smart_gateway.Frame.Build.{Accepts, payload_of, build-Accepts, build-ok-Accepts}
use smart_gateway.FrameParser.{ParsedFrame, Parser, frame_parser_feed}
use smart_gateway.FrameParser.Validate.{length-framed, parsed, frame_text-eq-framed}
use smart_gateway.FrameParser.Frames.{IsLine, feed-good}
use smart_gateway.FrameParser.Decode.{
  KvMessage, parse_kv_payload, id_capacity, MessageType, type_of_token, frame_get_message_type,
  data_message, cmd_message, ack_message, frame_decode_data, frame_decode_command, frame_decode_ack,
}
use smart_gateway.FrameParser.Decode.Payload.{
  IsClean, IsWord, valid_id-IsWord, payload_of-IsClean, parse_kv_payload-payload_of,
  message_type-payload_of,
}

module _ (out : Text) (out_size : ℕ) (id : Text) (sequence : ℕ) (type : Text) (fields : List Kv)
    (small : out_size ≤ 256) (word : IsWord type) (id_text : HasNoNul id)
    (fit : All FitsKv fields) where
  payload : Text
  payload = payload_of id sequence type fields

  length-payload_pos : 1 ≤ length payload
  unfolding payload payload_of header
  length-payload_pos = omega arith

  payload-IsLine : Accepts out_size id sequence type fields → IsLine payload
  unfolding payload
  payload-IsLine a = record {
    payload = record {
      has_no_nul = All-mono IsClean _ payload (λ c h. h.0) clean;
      nonempty = length-payload_pos;
      short = omega (
        arith,
        a.frame_fits,
        ap length (frame_text-eq-framed payload),
        length-framed payload (crc16_ccitt_false payload),
      );
    };
    inner = All-mono IsClean _ payload (λ c h. (h.1, h.2)) clean;
  }
    where
      clean : All IsClean payload
      clean =
          payload_of-IsClean id sequence type fields (valid_id-IsWord id id_text a.valid_id) word
            fit a.valid_fields

  pub build-feed-decode :
      {n : ℕ} (p : Parser)
      → length id < id_capacity
      → (build_kv_frame out out_size id sequence type fields).0 ≡ ok n
      → let (q, count, frames) =
          frame_parser_feed p (build_kv_frame out out_size id sequence type fields).1 in
        (f : ParsedFrame) × (frames ≡ f ∷ [])
        × (count ≡ 1)
        × (q.collecting ≡ false)
        × (parse_kv_payload f.payload type
            ≡ some (record { node_id = id; sequence = sequence % 1000000; fields = fields }))
        × ((m : MessageType) → type_of_token type ≡ m → frame_get_message_type f.payload ≡ m)
  unfolding payload
  build-feed-decode p short built =
      let a = build-ok-Accepts out out_size id sequence type fields built in
      let good = feed-good payload (crc16_ccitt_false payload) p (payload-IsLine a) refl in
      let word_id = valid_id-IsWord id id_text a.valid_id in
      rw
        (ap (λ r. r.1) (build-Accepts out out_size id sequence type fields a)
          ∙ frame_text-eq-framed payload)
        (
          parsed payload (crc16_ccitt_false payload),
          good.1,
          good.0,
          good.3,
          parse_kv_payload-payload_of id sequence type fields word_id word fit a.valid_fields short
              a.few_fields a.payload_fits,
          λ m e.
              message_type-payload_of id sequence type fields word_id word fit a.valid_fields m e
                a.payload_fits,
        )

-- The three kinds of frame whose fields are keys and values, with their builder and decoder.
pub data Kind : Type 0 where
  is_data is_cmd is_ack : Kind

abbrev pub build_as : Kind → Text → ℕ → Text → ℕ → List Kv → Result ℕ × Text
build_as is_data = frame_build_data_kv
build_as is_cmd = frame_build_command_kv
build_as is_ack = frame_build_ack_kv

abbrev pub decode_as : Kind → Text → Option KvMessage
decode_as is_data = frame_decode_data
decode_as is_cmd = frame_decode_command
decode_as is_ack = frame_decode_ack

abbrev pub message_as : Kind → MessageType
message_as is_data = data_message
message_as is_cmd = cmd_message
message_as is_ack = ack_message

-- A DATA, CMD or ACK frame that its builder wrote into a buffer of at most `FRAME_MAX_LEN` bytes,
-- with an id that the decoder has room for, is delivered by the parser from whatever state, as the
-- only frame; it has its builder's type, and its decoder gives back the id, the sequence number
-- modulo 10 ^ 6, and the fields in their order.
pub frame_roundtrip :
    (k : Kind) (out : Text) (out_size : ℕ) (id : Text) (sequence : ℕ) (fields : List Kv)
    (p : Parser) {n : ℕ}
    → out_size ≤ 256
    → HasNoNul id
    → length id < 32
    → All FitsKv fields
    → (build_as k out out_size id sequence fields).0 ≡ ok n
    → let (q, count, frames) = frame_parser_feed p (build_as k out out_size id sequence fields).1 in
      (f : ParsedFrame) × (frames ≡ f ∷ [])
      × (count ≡ 1)
      × (q.collecting ≡ false)
      × (decode_as k f.payload
          ≡ some (record { node_id = id; sequence = sequence % 1000000; fields = fields }))
      × (frame_get_message_type f.payload ≡ message_as k)
unfolding frame_build_data_kv frame_build_command_kv frame_build_ack_kv frame_decode_data
    frame_decode_command frame_decode_ack type_of_token text_eq
frame_roundtrip is_data out out_size id sequence fields p small text short fit built =
    let r =
      build-feed-decode out out_size id sequence data_type fields small (omega arith) text fit p
        short built in
    (r.0, r.1, r.2, r.3, r.4, r.5 data_message refl)
frame_roundtrip is_cmd out out_size id sequence fields p small text short fit built =
    let r =
      build-feed-decode out out_size id sequence cmd_type fields small (omega arith) text fit p
        short built in
    (r.0, r.1, r.2, r.3, r.4, r.5 cmd_message refl)
frame_roundtrip is_ack out out_size id sequence fields p small text short fit built =
    let r =
      build-feed-decode out out_size id sequence ack_type fields small (omega arith) text fit p
        short built in
    (r.0, r.1, r.2, r.3, r.4, r.5 ack_message refl)
