-- ===== src/Frame/Kinds.antt =====
-- The data of common/frame.h: fields, error codes, device types.
use smart_gateway.Prelude.{◌<◌, if◌then◌else◌, [], ◌∷◌, Option, none, some, length}
use smart_gateway.Prelude.Text.{Text, text_eq, HasNoNul}

-- `frame_kv_t`
pub record Kv : Type 0 where
  pub key : Text
  pub value : Text

-- Both texts end within their arrays.
pub record FitsKv (f : Kv) : Type 0 where
  pub key_fits : length f.key < 16
  pub value_fits : length f.value < 32
  pub key_text : HasNoNul f.key
  pub value_text : HasNoNul f.value

-- `frame_error_t`: -1, -2, -3
pub data FrameError : Type 0 where
  param too_long bad_node_id : FrameError

-- A length, or an error code.
pub data Result {ℓ} (A : Type ℓ) : Type ℓ where
  ok : A → Result A
  err : FrameError → Result A

-- `frame_device_type_t`
pub data DeviceType : Type 0 where
  unknown thsensor relay motor : DeviceType

-- The argument may be NULL.
pub frame_device_type_from_text : Option Text → DeviceType
frame_device_type_from_text none = unknown
frame_device_type_from_text (some text) =
    if text_eq text (b'1' ∷ [])
    then thsensor
    else if text_eq text (b'2' ∷ [])
    then relay
    else if text_eq text (b'3' ∷ [])
    then motor
    else unknown

pub frame_device_type_name : DeviceType → Text
frame_device_type_name thsensor = b'T' ∷ b'H' ∷ b'S' ∷ b'E' ∷ b'N' ∷ b'S' ∷ b'O' ∷ b'R' ∷ []
frame_device_type_name relay = b'R' ∷ b'E' ∷ b'L' ∷ b'A' ∷ b'Y' ∷ []
frame_device_type_name motor = b'M' ∷ b'O' ∷ b'T' ∷ b'O' ∷ b'R' ∷ []
frame_device_type_name unknown = b'U' ∷ b'N' ∷ b'K' ∷ b'N' ∷ b'O' ∷ b'W' ∷ b'N' ∷ []
