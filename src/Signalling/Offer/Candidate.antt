-- ===== src/Signalling/Offer/Candidate.antt =====
-- The line of a candidate.
use oven_web_rtctester.Prelude.{
  ◌≡◌, refl, true, false, some, List, ◌∷◌, ◌++◌, ltb, length, All, arith,
}
use oven_web_rtctester.Prelude.Bytes.{Bytes, ascii, starts_with, find_sub}
use oven_web_rtctester.Common.Text.Split.{NoZero}
use oven_web_rtctester.Common.Text.Join.{join_with, Free, tokenize2_tokens}
use oven_web_rtctester.Signalling.{SignallingServer, Library}
use oven_web_rtctester.Signalling.Offer.{parsing_candidate}

has_prefix :
    (foundation : Bytes) → find_sub (ascii "candidate:") (ascii "candidate:" ++ foundation) ≡ some 0
unfolding find_sub starts_with
has_prefix foundation = refl

-- The fields of a candidate line.
pub record Candidate : Type 0 where
  pub foundation : Bytes
  pub component : Bytes
  pub transport : Bytes
  pub priority : Bytes
  pub ip : Bytes
  pub port : Bytes
  pub type : Bytes
  pub more : List Bytes

abbrev pub fields : Candidate → List Bytes
fields c =
    (ascii "candidate:" ++ c.foundation)
    ∷ c.component
    ∷ c.transport
    ∷ c.priority
    ∷ c.ip
    ∷ c.port
    ∷ c.type
    ∷ c.more

abbrev pub IsCandidate : Candidate → Type 0
IsCandidate c = All (Free b' ') (fields c) × All NoZero (fields c)

abbrev pub with_address : Library → Candidate → SignallingServer → SignallingServer
with_address library c s = record s {
  candidate_ip_string = c.ip;
  candidate_ip = library.inet_addr c.ip;
  candidate_port = library.strtol c.port;
}

-- A candidate line of seven or more fields without spaces and zeros sets the address and the port of
-- the server to its fifth and its sixth field.
pub parsing_candidate-join_with :
    (library : Library) (c : Candidate) (s : SignallingServer)
    → IsCandidate c
    → parsing_candidate library (join_with b' ' (fields c)) s ≡ (with_address library c s, true)
unfolding parsing_candidate
parsing_candidate-join_with library c s (free, no_zero) =
    let first = ascii "candidate:" ++ c.foundation in
    let rest = c.component ∷ c.transport ∷ c.priority ∷ c.ip ∷ c.port ∷ c.type ∷ c.more in
    let seven : ltb (length (first ∷ rest)) 7 ≡ false = ground arith in
    rw (tokenize2_tokens b' ' first rest refl free no_zero)
      (rw (seven, has_prefix c.foundation) refl)
