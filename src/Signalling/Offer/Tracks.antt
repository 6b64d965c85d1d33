-- ===== src/Signalling/Offer/Tracks.antt =====
-- How many tracks a session description gives.
use oven_web_rtctester.Prelude.{
  ℕ, ◌+◌, ◌≤◌, ◌≡◌, refl, sym, ap, ◌∙◌, Option, none, some, List, [], ◌∷◌, ◌==◌, if◌then◌else◌,
  if-cases, inl, inr, Bool-cases, length, length-append, All, arith,
}
use oven_web_rtctester.Prelude.Bytes.{Bytes}
use oven_web_rtctester.Signalling.{
  MlineInfo, SignallingServer, Library, push_current, media_line, enough, with_option, with_pwd,
  with_ufrag, ice_line, with_first_rtpmap, with_mid, attribute_line, parsing_media_line,
  mid_pattern, rtpmap_pattern, ufrag_pattern, pwd_pattern, options_pattern,
}
use oven_web_rtctester.Signalling.Offer.{
  getlines, drop_cr, type_and_content, on_content, parse_lines, push_last, parsing_sdp,
}

abbrev pub media_waiting : Option MlineInfo → ℕ
media_waiting none = 0
media_waiting (some info) = 1

-- The address that the callback is told stays.
abbrev pub SameAddress : SignallingServer → SignallingServer → Type 0
SameAddress s s' = (s'.candidate_ip ≡ s.candidate_ip) × (s'.candidate_port ≡ s.candidate_port)

-- A line that belongs to no new media keeps the media lines.
abbrev Keeps : SignallingServer → SignallingServer → Type 0
Keeps s s' =
    SameAddress s s'
    × (length s'.mline_infos ≡ length s.mline_infos)
    × (media_waiting s'.current_mline_info ≡ media_waiting s.current_mline_info)

with_option-Keeps :
    (matches : Option (List Bytes)) (s : SignallingServer) → Keeps s (with_option matches s)
with_option-Keeps none s = ((refl, refl), refl, refl)
with_option-Keeps (some matches) s =
    if-cases (Keeps s) _ (λ empty. ((refl, refl), refl, refl)) (λ set. ((refl, refl), refl, refl))

with_pwd-Keeps :
    (library : Library) (line : Bytes) (matches : Option (List Bytes)) (s : SignallingServer)
    → Keeps s (with_pwd library line matches s)
with_pwd-Keeps library line none s =
    with_option-Keeps (enough 2 (library.regex_search options_pattern line)) s
with_pwd-Keeps library line (some matches) s =
    if-cases (Keeps s) _ (λ empty. ((refl, refl), refl, refl))
      (λ set. with_option-Keeps (enough 2 (library.regex_search options_pattern line)) s)

with_ufrag-Keeps :
    (library : Library) (line : Bytes) (matches : Option (List Bytes)) (s : SignallingServer)
    → Keeps s (with_ufrag library line matches s)
with_ufrag-Keeps library line none s =
    with_pwd-Keeps library line (enough 2 (library.regex_search pwd_pattern line)) s
with_ufrag-Keeps library line (some matches) s =
    if-cases (Keeps s) _ (λ empty. ((refl, refl), refl, refl))
      (λ set. with_pwd-Keeps library line (enough 2 (library.regex_search pwd_pattern line)) s)

ice_line-Keeps :
    (library : Library) (line : Bytes) (s : SignallingServer) → Keeps s (ice_line library line s)
unfolding ice_line
ice_line-Keeps library line s =
    with_ufrag-Keeps library line (enough 2 (library.regex_search ufrag_pattern line)) s

with_first_rtpmap-Keeps :
    (library : Library) (line : Bytes) (info : MlineInfo) (matches : Option (List Bytes))
    (s : SignallingServer)
    → media_waiting s.current_mline_info ≡ 1
    → Keeps s (with_first_rtpmap library line info matches s)
with_first_rtpmap-Keeps library line info none s one = ice_line-Keeps library line s
with_first_rtpmap-Keeps library line info (some matches) s one =
    if-cases (Keeps s) _ (λ empty. ((refl, refl), refl, sym one))
      (λ set. ice_line-Keeps library line s)

with_mid-Keeps :
    (library : Library) (line : Bytes) (info : MlineInfo) (matches : Option (List Bytes))
    (s : SignallingServer)
    → media_waiting s.current_mline_info ≡ 1
    → Keeps s (with_mid library line info matches s)
with_mid-Keeps library line info none s one =
    with_first_rtpmap-Keeps library line info (enough 4 (library.regex_search rtpmap_pattern line))
      s one
with_mid-Keeps library line info (some matches) s one = ((refl, refl), refl, sym one)

attribute_line-Keeps :
    (library : Library) (line : Bytes) (current : Option MlineInfo) (s : SignallingServer)
    → s.current_mline_info ≡ current
    → Keeps s (attribute_line library line current s)
attribute_line-Keeps library line none s e = ice_line-Keeps library line s
attribute_line-Keeps library line (some info) s e =
    with_mid-Keeps library line info (enough 2 (library.regex_search mid_pattern line)) s
      (ap media_waiting e)

-- The media lines so far, the current one too.
abbrev pub medias : SignallingServer → ℕ
medias s = length s.mline_infos + media_waiting s.current_mline_info

length-push_current :
    (current : Option MlineInfo) (infos : List MlineInfo)
    → length (push_current current infos) ≡ length infos + media_waiting current
length-push_current none infos = omega arith
length-push_current (some info) infos = omega (arith, length-append infos (info ∷ []))

SameAddress-parsing_media_line :
    (library : Library) (type : ℕ) (line : Bytes) (s : SignallingServer)
    → SameAddress s (parsing_media_line library type line s)
unfolding parsing_media_line media_line
SameAddress-parsing_media_line library type line s =
    if-cases (SameAddress s) (type == b'm') (λ media. (refl, refl))
      λ other. (attribute_line-Keeps library line s.current_mline_info s refl).0

abbrev pub is_media : ℕ → ℕ
is_media type = if type == b'm' then 1 else 0

medias-parsing_media_line :
    (library : Library) (type : ℕ) (line : Bytes) (s : SignallingServer)
    → medias (parsing_media_line library type line s) ≡ medias s + is_media type
unfolding parsing_media_line media_line
medias-parsing_media_line library type line s =
    let kept = attribute_line-Keeps library line s.current_mline_info s refl in
    elim (Bool-cases (type == b'm')) [
      | inl media ↦ rw media (omega (arith, length-push_current s.current_mline_info s.mline_infos))
      | inr other ↦ rw other (omega (arith, kept.1, kept.2))
    ]

abbrev pub media_of : Option (ℕ × Bytes) → ℕ
media_of none = 0
media_of (some (type, content)) = is_media type

-- the number of lines that begin with an m
unfoldable pub media_lines : List Bytes → ℕ
media_lines [] = 0
media_lines (line ∷ lines) = media_of (type_and_content (drop_cr line)) + media_lines lines

abbrev pub HasContent : Bytes → Type 0
HasContent line = 2 ≤ length (drop_cr line)

abbrev Grown : SignallingServer → ℕ → Option SignallingServer → Type 0
Grown s n none = ⊥
Grown s n (some s') = SameAddress s s' × (medias s' ≡ n)

Grown-from :
    (s s' : SignallingServer) (n : ℕ) (r : Option SignallingServer)
    → SameAddress s s'
    → Grown s' n r
    → Grown s n r
Grown-from s s' n none same g = g
Grown-from s s' n (some s'') (ip, port) ((ip', port'), e) = ((ip' ∙ ip, port' ∙ port), e)

on_content-Grown :
    (library : Library) (rest : SignallingServer → Option SignallingServer) (line : Bytes)
    (lines n : ℕ) (s : SignallingServer)
    → 2 ≤ length line
    → medias s + (media_of (type_and_content line) + lines) ≡ n
    → ((s' : SignallingServer) → medias s' + lines ≡ n → Grown s' n (rest s'))
    → Grown s n (on_content library rest (type_and_content line) s)
on_content-Grown library rest [] lines n s long e ih = absurd (omega arith)
on_content-Grown library rest (c ∷ []) lines n s long e ih = absurd (omega arith)
on_content-Grown library rest (c ∷ d ∷ content) lines n s long e ih =
    let s' = parsing_media_line library c content s in
    Grown-from s s' n (rest s') (SameAddress-parsing_media_line library c content s)
      (ih s' (omega (arith, medias-parsing_media_line library c content s)))

parse_lines-Grown :
    (library : Library) (lines : List Bytes) (n : ℕ) (s : SignallingServer)
    → All HasContent lines
    → medias s + media_lines lines ≡ n
    → Grown s n (parse_lines library lines s)
unfolding parse_lines media_lines
parse_lines-Grown library [] n s all e = ((refl, refl), omega arith)
parse_lines-Grown library (line ∷ lines) n s (long, all) e =
    on_content-Grown library (parse_lines library lines) (drop_cr line) (media_lines lines) n s long
      e (λ s' e'. parse_lines-Grown library lines n s' all e')

-- What the callback of the offer will be given.
abbrev pub Tracks : SignallingServer → ℕ → Option SignallingServer → Type 0
Tracks s n none = ⊥
Tracks s n (some s') = SameAddress s s' × (length s'.mline_infos ≡ n)

push_last-Tracks :
    (s : SignallingServer) (n : ℕ) (r : Option SignallingServer)
    → Grown s n r
    → Tracks s n (push_last r)
push_last-Tracks s n none g = g
push_last-Tracks s n (some s') (same, e) =
    (same, omega (arith, e, length-push_current s'.current_mline_info s'.mline_infos))

-- When each line of a description has two letters or more, the reader does not throw, and it makes a
-- track of each media line, one more if a media line of an earlier
-- description is still current; the address of the server stays.
pub parsing_sdp-Tracks :
    (library : Library) (sdp : Bytes) (s : SignallingServer)
    → All HasContent (getlines [] sdp)
    → Tracks s (medias s + media_lines (getlines [] sdp)) (parsing_sdp library sdp s)
unfolding parsing_sdp
parsing_sdp-Tracks library sdp s all =
    push_last-Tracks s (medias s + media_lines (getlines [] sdp))
      (parse_lines library (getlines [] sdp) s)
      (parse_lines-Grown library (getlines [] sdp) (medias s + media_lines (getlines [] sdp)) s all
        refl)
