-- ===== src/Frame/Standard/Writes.antt =====
-- What it means for a call to change the header of a standard telegram and nothing else.
pub mod Control
pub mod Routing
pub mod Tpdu
use embassy_knx.Prelude.{◌≡◌, Bytes, length, ok, drop}
use embassy_knx.Frame.Types.{FrameResult}
use embassy_knx.Frame.Header.{Header, decode, IsBytes}

-- A call succeeds and leaves a buffer of bytes as long as `b`, whose header is `h`, and whose
-- data behind the header is that of `b`.
pub record Writes (b : Bytes) (h : Header) (result : FrameResult Bytes) : Type 0 where
  pub out : Bytes
  pub succeeds : result ≡ ok out
  pub same_length : length out ≡ length b
  pub bytes : IsBytes out
  pub same_data : drop 8 out ≡ drop 8 b
  pub header : decode out ≡ h
