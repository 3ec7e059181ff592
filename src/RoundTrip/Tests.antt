-- ===== src/RoundTrip/Tests.antt =====
-- A DATA frame from builder to decoder.
use smart_gateway.Prelude.{◌≡◌, arith, false, some, [], ◌∷◌}
use smart_gateway.Frame.{frame_build_data_kv}
use smart_gateway.Frame.Tests.{node01, temperature, sample_length}
use smart_gateway.FrameParser.{ParsedFrame, frame_parser_init, frame_parser_feed}
use smart_gateway.FrameParser.Decode.{frame_get_message_type, frame_decode_data, data_message}
use smart_gateway.RoundTrip.{is_data, frame_roundtrip}

frame_roundtrip_example :
    let (q, count, frames) =
      frame_parser_feed frame_parser_init
        (frame_build_data_kv [] 256 node01 1000001 (temperature ∷ [])).1 in
    (f : ParsedFrame) × (frames ≡ f ∷ [])
    × (count ≡ 1)
    × (q.collecting ≡ false)
    × (frame_decode_data f.payload
        ≡ some (record { node_id = node01; sequence = 1; fields = temperature ∷ [] }))
    × (frame_get_message_type f.payload ≡ data_message)
frame_roundtrip_example =
    frame_roundtrip is_data [] 256 node01 1000001 (temperature ∷ []) frame_parser_init (omega arith)
      (omega arith) (omega arith) (omega arith) sample_length
