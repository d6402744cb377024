-- ===== src/Wire/FrameV2/Versions.antt =====
-- The two frame versions never decode as one another.
use warren_sdk_ts.Prelude.{ℕ, ◌≤◌, ◌≡◌, List, ◌∷◌, length, All, le→ltb}
use warren_sdk_ts.Wire.Result.{ok, throw, unsupported_version, truncated_frame}
use warren_sdk_ts.Wire.Varint.Groups.{IsByte}
use warren_sdk_ts.Wire.Cursor.At.{At-start, read_u8-At}
use warren_sdk_ts.Wire.Frame.{WarrenMultihopFrame}
use warren_sdk_ts.Wire.Frame.Decode.{decode_multihop_frame}
use warren_sdk_ts.Wire.Frame.Accepts.{decode_multihop_frame_iff}
use warren_sdk_ts.Wire.FrameV2.{WarrenMultihopFrameV2, max_frame_size}
use warren_sdk_ts.Wire.FrameV2.Decode.{decode_multihop_frame_v2}
use warren_sdk_ts.Wire.FrameV2.Accepts.{decode_multihop_frame_v2_iff}

decode_v1_other :
    (bytes rest : List ℕ)
    → bytes ≡ 2 ∷ rest
    → decode_multihop_frame bytes ≡ throw (unsupported_version 2)
unfolding decode_multihop_frame
decode_v1_other bytes rest e =
    rw (read_u8-At truncated_frame 0 2 rest (At-start bytes (2 ∷ rest) e))

decode_v2_other :
    (bytes rest : List ℕ)
    → bytes ≡ 1 ∷ rest
    → length bytes ≤ max_frame_size
    → decode_multihop_frame_v2 bytes ≡ throw (unsupported_version 1)
unfolding decode_multihop_frame_v2
decode_v2_other bytes rest e fits = rw (
  le→ltb max_frame_size (length bytes) fits,
  read_u8-At truncated_frame 0 1 rest (At-start bytes (1 ∷ rest) e),
)

-- Whatever the /v2 decoder accepts the /v1 decoder refuses for its version.
pub v2_refused_by_v1 :
    (bytes : List ℕ) (frame : WarrenMultihopFrameV2)
    → All IsByte bytes
    → decode_multihop_frame_v2 bytes ≡ ok frame
    → decode_multihop_frame bytes ≡ throw (unsupported_version 2)
v2_refused_by_v1 bytes frame h e =
    decode_v1_other bytes _ ((decode_multihop_frame_v2_iff bytes frame h).0 e).1.layout

-- Whatever the /v1 decoder accepts, of at most 65536 bytes, the /v2 decoder refuses for its version.
pub v1_refused_by_v2 :
    (bytes : List ℕ) (frame : WarrenMultihopFrame)
    → All IsByte bytes
    → decode_multihop_frame bytes ≡ ok frame
    → length bytes ≤ max_frame_size
    → decode_multihop_frame_v2 bytes ≡ throw (unsupported_version 1)
v1_refused_by_v2 bytes frame h e fits =
    decode_v2_other bytes _ ((decode_multihop_frame_iff bytes frame h).0 e).layout fits
