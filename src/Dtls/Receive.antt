-- ===== src/Dtls/Receive.antt =====
-- srcs/ome_stream/dtls_transport.cpp: `OnDataReceived` and the start of DTLS.
use oven_web_rtctester.Prelude.{
  ℕ, Bool, true, false, not, ◌&&◌, Option, none, some, List, [], ◌∷◌, ◌++◌, ◌==◌, if◌then◌else◌,
  length,
}
use oven_web_rtctester.Prelude.Bytes.{Bytes}
use oven_web_rtctester.Dtls.{
  RtpPacketType, RtpPacketInfo, Transport, is_dtls_packet, is_rtp_packet, rtp_packet_parsing, video,
  audio, unknown, ssl_none, ssl_wait, ssl_connecting, ssl_connected, ssl_error, ssl_closed,
}
use oven_web_rtctester.Dtls.Traffic.{set_video_traffic, set_audio_traffic}

-- A packet is queued when none waits.
unfoldable pub save_dtls_packet : Bytes → List Bytes → List Bytes
save_dtls_packet bytes buffer = if length buffer == 1 then buffer else buffer ++ (bytes ∷ [])

unfoldable pub take_dtls_packet : List Bytes → Option Bytes × List Bytes
take_dtls_packet [] = (none, [])
take_dtls_packet (packet ∷ buffer) = (some packet, buffer)

abbrev pub set_traffic : ℕ → RtpPacketInfo → ℕ → Transport → RtpPacketType → Transport
set_traffic now p time d video = set_video_traffic now p time d
set_traffic now p time d audio = set_audio_traffic now p time d
set_traffic now p time d unknown = d

-- the timestamp that `OnRtpStart_DtlsTransport` is called with, when it is
abbrev pub notify_start : RtpPacketInfo → Transport → Transport × Option ℕ
notify_start p d =
    if not (d.stream_start_notify) && d.video_track.stream_started && d.audio_track.stream_started
    then (record d { stream_start_notify = true }, some (p.timestamp))
    else (d, none)

-- OpenSSL's part: `connect` is `_tls.Connect()` and `read` is `_tls.Read`, `Pending` and `FlushInput`.
-- Both take the TLS state and the packets that wait, and give those that are left; `connect` says
-- whether the handshake is complete.
module _ {ℓ} {T : Type ℓ} (connect : T → List Bytes → T × List Bytes × Bool)
    (read : T → List Bytes → T × List Bytes) where
  abbrev pub continue_ssl : T × Transport → T × Transport
  continue_ssl (tls, d) =
      let (tls', buffer, complete) = connect tls (d.packet_buffer) in
      (
        tls',
        record d { packet_buffer = buffer; state = if complete then ssl_connected else d.state },
      )

  abbrev pub read_dtls : T × Transport → T × Transport
  read_dtls (tls, d) =
      let (tls', buffer) = read tls (d.packet_buffer) in (tls', record d { packet_buffer = buffer })

  abbrev pub receive_media : ℕ → Bytes → ℕ → T × Transport → (T × Transport) × Option ℕ × Bool
  receive_media now bytes time (tls, d) =
      let p = rtp_packet_parsing (d.video_track_info) (d.audio_track_info) bytes in
      let (d', notified) = notify_start p (set_traffic now p time d (p.packet_type)) in
      if is_rtp_packet bytes then ((tls, d'), notified, true) else ((tls, d), none, false)

  abbrev pub save_packet : Bytes → T × Transport → T × Transport
  save_packet bytes (tls, d) =
      (tls, record d { packet_buffer = save_dtls_packet bytes (d.packet_buffer) })

  -- the state behind, the start that is reported, and what the method returns
  unfoldable pub on_data_received :
      ℕ → Bytes → ℕ → T × Transport → (T × Transport) × Option ℕ × Bool
  on_data_received now bytes time (tls, d) = elim (d.state) [
    | ssl_connecting ↦
        if is_dtls_packet bytes
        then (continue_ssl (save_packet bytes (tls, d)), none, true)
        else receive_media now bytes time (tls, d)
    | ssl_connected ↦
        if is_dtls_packet bytes
        then (read_dtls (save_packet bytes (tls, d)), none, true)
        else receive_media now bytes time (tls, d)
    | ssl_none ↦ ((tls, d), none, false)
    | ssl_wait ↦ ((tls, d), none, false)
    | ssl_error ↦ ((tls, d), none, false)
    | ssl_closed ↦ ((tls, d), none, false)
  ]

  -- `generated` says that the certificate is made; `initialize` is `_tls.Initialize`, `none` when it
  -- fails.
  unfoldable pub start_dtls : Bool → (T → Option T) → T × Transport → (T × Transport) × Bool
  start_dtls generated initialize (tls, d) = elim (initialize tls) [
    | none ↦ if generated then ((tls, record d { state = ssl_error }), false) else ((tls, d), false)
    | some tls' ↦
        if generated
        then (continue_ssl (tls', record d { state = ssl_connecting }), true)
        else ((tls, d), false)
  ]
