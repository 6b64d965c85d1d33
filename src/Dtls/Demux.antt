-- ===== src/Dtls/Demux.antt =====
-- `OnDataReceived`: which packets go to TLS, which to the counters, and how many wait.
use oven_web_rtctester.Prelude.{
  ℕ, ◌+◌, ◌≤◌, ◌≡◌, ◌≢◌, ◌⊎◌, refl, inl, inr, Bool, true, false, Option, none, some, List, [], ◌∷◌,
  length, arith,
}
use oven_web_rtctester.Prelude.Bytes.{Bytes}
use oven_web_rtctester.Dtls.{
  ssl_none, ssl_wait, ssl_connecting, ssl_connected, ssl_error, ssl_closed, SslState, Transport,
  video, audio, unknown, RtpPacketType, RtpPacketInfo, is_dtls_packet, is_rtp_packet,
  rtp_packet_parsing,
}
use oven_web_rtctester.Dtls.Receive.{save_dtls_packet, receive_media, set_traffic, on_data_received}
use oven_web_rtctester.Dtls.Traffic.{set_video_traffic, set_audio_traffic}

-- No packet is taken for both.
disjoint : (bytes : Bytes) → is_dtls_packet bytes ≡ true → is_rtp_packet bytes ≡ false
unfolding is_dtls_packet is_rtp_packet
disjoint bytes dtls = ground (arith, dtls)

save-length :
    (bytes : Bytes) (buffer : List Bytes)
    → length buffer ≤ 1
    → length (save_dtls_packet bytes buffer) ≤ 1
unfolding save_dtls_packet
save-length bytes [] h = omega arith
save-length bytes (x ∷ []) h = omega arith
save-length bytes (x ∷ y ∷ zs) h = absurd (omega arith)

-- What the sockets and TLS read of the transport is left alone by the counters.
abbrev pub SameLink : Transport → Transport → Type 0
SameLink d d' = (d'.state ≡ d.state) × (d'.packet_buffer ≡ d.packet_buffer)

set_traffic-SameLink :
    (now : ℕ) (p : RtpPacketInfo) (time : ℕ) (d : Transport) (kind : RtpPacketType)
    → SameLink d (set_traffic now p time d kind)
unfolding set_video_traffic set_audio_traffic
set_traffic-SameLink now p time d video = ground arith
set_traffic-SameLink now p time d audio = ground arith
set_traffic-SameLink now p time d unknown = (refl, refl)

SslState-cases :
    (s : SslState)
    → ((s ≡ ssl_connecting) ⊎ (s ≡ ssl_connected)) ⊎ ((s ≢ ssl_connecting) × (s ≢ ssl_connected))
SslState-cases ssl_connecting = inl (inl refl)
SslState-cases ssl_connected = inl (inr refl)
SslState-cases ssl_none = ground arith
SslState-cases ssl_wait = ground arith
SslState-cases ssl_error = ground arith
SslState-cases ssl_closed = ground arith

abbrev pub reports : Option ℕ → ℕ
reports none = 0
reports (some timestamp) = 1

abbrev pub flag : Bool → ℕ
flag true = 1
flag false = 0

module _ {ℓ} {T : Type ℓ} (connect : T → List Bytes → T × List Bytes × Bool)
    (read : T → List Bytes → T × List Bytes) where
  media :
      (now : ℕ) (bytes : Bytes) (time : ℕ) (tls : T) (d : Transport)
      → is_rtp_packet bytes ≡ true
      → (receive_media connect read now bytes time (tls, d)).0.0 ≡ tls
        × SameLink d (receive_media connect read now bytes time (tls, d)).0.1
  media now bytes time tls d rtp =
      let p = rtp_packet_parsing (d.video_track_info) (d.audio_track_info) bytes in
      ground (arith, rtp, set_traffic-SameLink now p time d (p.packet_type))

  -- A media packet is never shown to TLS: the TLS state, the connection state and the packets that
  -- wait for TLS are as before, in every state of the connection.
  pub on_data_received-media :
      (now : ℕ) (bytes : Bytes) (time : ℕ) (tls : T) (d : Transport)
      → is_rtp_packet bytes ≡ true
      → let after = on_data_received connect read now bytes time (tls, d) in
        (after.0.0 ≡ tls) × SameLink d (after.0.1)
  unfolding on_data_received
  on_data_received-media now bytes time tls d rtp =
      ground (arith, rtp, disjoint bytes, media now bytes time tls d)

  -- Anything else leaves the counters, and the start is not reported.
  pub on_data_received-other :
      (now : ℕ) (bytes : Bytes) (time : ℕ) (tls : T) (d : Transport)
      → is_rtp_packet bytes ≡ false
      → let after = on_data_received connect read now bytes time (tls, d) in
        (after.0.1.video_track ≡ d.video_track)
        × (after.0.1.audio_track ≡ d.audio_track)
        × (after.1 ≡ none)
  unfolding on_data_received
  on_data_received-other now bytes time tls d other = ground (arith, other)

  -- When TLS adds nothing to the packets that wait, at most one waits after each call.
  pub on_data_received-buffer :
      (now : ℕ) (bytes : Bytes) (time : ℕ) (tls : T) (d : Transport)
      → ((t : T) (buffer : List Bytes) → length (connect t buffer).1 ≤ length buffer)
      → ((t : T) (buffer : List Bytes) → length (read t buffer).1 ≤ length buffer)
      → length (d.packet_buffer) ≤ 1
      → length ((on_data_received connect read now bytes time (tls, d)).0.1.packet_buffer) ≤ 1
  unfolding on_data_received
  on_data_received-buffer now bytes time tls d connects reads one =
      let p = rtp_packet_parsing (d.video_track_info) (d.audio_track_info) bytes in
      let saved = save_dtls_packet bytes (d.packet_buffer) in
      ground (
        arith,
        one,
        connects tls saved,
        reads tls saved,
        save-length bytes (d.packet_buffer) one,
        set_traffic-SameLink now p time d (p.packet_type),
      )

  set_traffic_notify :
      (now : ℕ) (p : RtpPacketInfo) (time : ℕ) (d : Transport) (kind : RtpPacketType)
      → (set_traffic now p time d kind).stream_start_notify ≡ d.stream_start_notify
  unfolding set_video_traffic set_audio_traffic
  set_traffic_notify now p time d video = ground arith
  set_traffic_notify now p time d audio = ground arith
  set_traffic_notify now p time d unknown = refl

  pub on_data_received-reports :
      (now : ℕ) (bytes : Bytes) (time : ℕ) (tls : T) (d : Transport)
      → let after = on_data_received connect read now bytes time (tls, d) in
        flag (after.0.1.stream_start_notify) ≡ flag (d.stream_start_notify) + reports (after.1)
  unfolding on_data_received
  on_data_received-reports now bytes time tls d =
      let p = rtp_packet_parsing (d.video_track_info) (d.audio_track_info) bytes in
      ground (arith, set_traffic_notify now p time d (p.packet_type))

  -- The starts reported while packets arrive, each with the clock and its time.
  pub starts_reported : List (ℕ × Bytes × ℕ) → T × Transport → ℕ
  starts_reported [] s = 0
  starts_reported ((now, bytes, time) ∷ rest) s =
      let after = on_data_received connect read now bytes time s in
      reports (after.1) + starts_reported rest (after.0)

  -- However many packets come, the start of a stream is reported at most once.
  pub starts_reported_once :
      (arrivals : List (ℕ × Bytes × ℕ)) (tls : T) (d : Transport)
      → starts_reported arrivals (tls, d) + flag (d.stream_start_notify) ≤ 1
  unfolding starts_reported
  starts_reported_once [] tls d = ground arith
  starts_reported_once ((now, bytes, time) ∷ rest) tls d =
      let (tls', d') = (on_data_received connect read now bytes time (tls, d)).0 in
      omega
        (arith, on_data_received-reports now bytes time tls d, starts_reported_once rest tls' d')
