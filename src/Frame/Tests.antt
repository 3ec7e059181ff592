-- ===== src/Frame/Tests.antt =====
-- The builders of common/frame.c at concrete inputs; tests/test_frame.c has the first of them.
use smart_gateway.Prelude.{ℕ, ◌≡◌, ◌⊎◌, ◌<◌, refl, ap, [], ◌∷◌, length}
use smart_gateway.Prelude.Text.{Text}
use smart_gateway.Prelude.Int.{negsuc}
use smart_gateway.Crc16.{crc16_ccitt_false}
use smart_gateway.Frame.Kinds.{Kv, bad_node_id, ok, err}
use smart_gateway.Frame.{
  is_reserved, has_no_reserved, is_empty, node_id_is_valid, has_no_delimiter, field_text_is_valid,
  decimal6, hex_char, hex4, header, kv_text, append_fields, frame_text, data_type, build_kv_frame,
  frame_build_data_kv, print_int,
}
use smart_gateway.Frame.Build.{Accepts, payload_of, build-Accepts, build-ok-Accepts, build-err}

abbrev pub node01 : Text
node01 = b'N' ∷ b'O' ∷ b'D' ∷ b'E' ∷ b'0' ∷ b'1' ∷ []

abbrev pub temperature : Kv
temperature = record { key = b'T' ∷ []; value = b'2' ∷ b'5' ∷ b'3' ∷ [] }

-- 26 bytes of payload and 8 around it.
pub sample_length : (frame_build_data_kv [] 256 node01 1000001 (temperature ∷ [])).0 ≡ ok 34
unfolding frame_build_data_kv build_kv_frame node_id_is_valid has_no_reserved is_reserved is_empty
    field_text_is_valid has_no_delimiter append_fields header decimal6 kv_text frame_text hex4
    hex_char crc16_ccitt_false
sample_length = refl

sample_length_kv : (build_kv_frame [] 256 node01 1000001 data_type (temperature ∷ [])).0 ≡ ok 34
unfolding frame_build_data_kv
sample_length_kv = sample_length

minus_twelve : print_int (negsuc 11) ≡ b'-' ∷ b'1' ∷ b'2' ∷ []
unfolding print_int
minus_twelve = refl

sample_Accepts : Accepts 256 node01 1000001 data_type (temperature ∷ [])
sample_Accepts =
    build-ok-Accepts [] 256 node01 1000001 data_type (temperature ∷ []) sample_length_kv

build-ok-Accepts_example : Accepts 256 node01 1000001 data_type (temperature ∷ [])
build-ok-Accepts_example =
    build-ok-Accepts [] 256 node01 1000001 data_type (temperature ∷ []) sample_length_kv

build-Accepts_example : build_kv_frame [] 256 node01 1000001 data_type (temperature ∷ []) ≡ (
  ok (length (frame_text (payload_of node01 1000001 data_type (temperature ∷ [])))),
  frame_text (payload_of node01 1000001 data_type (temperature ∷ [])),
)
build-Accepts_example =
    build-Accepts [] 256 node01 1000001 data_type (temperature ∷ []) sample_Accepts

-- A comma in the id.
comma_refused : build_kv_frame (b'x' ∷ []) 256 (b',' ∷ []) 1 data_type [] ≡ (err bad_node_id, [])
unfolding build_kv_frame node_id_is_valid has_no_reserved is_reserved is_empty
comma_refused = refl

build-err_example :
    let built = build_kv_frame (b'x' ∷ []) 256 (b',' ∷ []) 1 data_type [] in
    (built.1 ≡ []) ⊎ ((built.1 ≡ b'x' ∷ []) × ((◌≡◌ {A = ℕ} 256 0) ⊎ (16 < length {A = Kv} [])))
build-err_example =
    build-err (b'x' ∷ []) 256 (b',' ∷ []) 1 data_type [] (ap (λ r. r.0) comma_refused)
