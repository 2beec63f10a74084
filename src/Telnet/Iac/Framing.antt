-- ===== src/Telnet/Iac/Framing.antt =====
-- A block framed by the encoders of telnet/session.go and telnet/mssp.go, read by
-- `readSubnegotiation` of telnet/iac.go.
use mathlib.Core.List.{append-nil, append_assoc}
use wheel_mud.Base.{
  ℕ, ◌+◌, ◌/◌, ◌%◌, ◌≤◌, ◌<◌, ◌≡◌, ◌≢◌, refl, ◌∙◌, Bool, true, none, some, [], ◌∷◌, ◌++◌, arith,
  length, length-append, leb, ◌==◌, if◌then◌else◌, Bool-cases, inl, inr,
}
use wheel_mud.Base.Text.{Bytes}
use wheel_mud.Telnet.Iac.{
  Session, Read, ok, err, too_long, telnet_iac, telnet_se, telnet_sb, telnet_opt_gmcp,
  telnet_opt_naws, max_subnegotiation_len, append_field, encode_gmcp_frame, split_space,
  read_payload, handle_gmcp_subnegotiation, handle_subnegotiation, read_subnegotiation, read_iac,
}

abbrev framed : Bytes → Bytes → Bytes
framed payload rest = append_field payload ++ telnet_iac ∷ telnet_se ∷ rest

over :
    (sofar : Bytes) (b : ℕ) (t : Bytes)
    → max_subnegotiation_len < length sofar
    → read_payload sofar (b ∷ t) ≡ err too_long
unfolding read_payload
over sofar b [] h = ground arith
over sofar b (c ∷ t) h = ground arith

plain :
    (sofar : Bytes) (b : ℕ) (t : Bytes)
    → length sofar ≤ max_subnegotiation_len
    → b ≢ telnet_iac
    → read_payload sofar (b ∷ t) ≡ read_payload (sofar ++ b ∷ []) t
unfolding read_payload
plain sofar b [] h ne = ground arith
plain sofar b (c ∷ t) h ne = ground arith

escaped :
    (sofar t : Bytes)
    → length sofar ≤ max_subnegotiation_len
    → read_payload sofar (telnet_iac ∷ telnet_iac ∷ t) ≡ read_payload (sofar ++ telnet_iac ∷ []) t
unfolding read_payload
escaped sofar t h = ground arith

append_field-cons :
    (b : ℕ) (p : Bytes)
    → append_field (b ∷ p)
      ≡ (if b == telnet_iac then telnet_iac ∷ telnet_iac ∷ append_field p else b ∷ append_field p)
unfolding append_field
append_field-cons b p = refl

abbrev outcome : Bytes → Bytes → Bytes → Read (Bytes × Bytes)
outcome sofar payload rest =
    if leb (length sofar + length payload) max_subnegotiation_len
    then ok (sofar ++ payload, rest)
    else err too_long

-- One byte of the payload, which takes one or two bytes of the frame.
read_byte :
    (sofar : Bytes) (b : ℕ) (p rest : Bytes)
    → length sofar ≤ max_subnegotiation_len
    → read_payload sofar (framed (b ∷ p) rest) ≡ read_payload (sofar ++ b ∷ []) (framed p rest)
read_byte sofar b p rest h = elim (Bool-cases (b == telnet_iac)) [
  | inl e ↦
      let same : b ≡ telnet_iac = ground arith in
      rw (append_field-cons b p, e) (rw same (escaped sofar (framed p rest) h))
  | inr e ↦ rw (append_field-cons b p, e) (plain sofar b (framed p rest) h (ground arith))
]

framed-cons : (p rest : Bytes) → (b : ℕ) × (t : Bytes) × (framed p rest ≡ b ∷ t)
unfolding append_field
framed-cons [] rest = (telnet_iac, telnet_se ∷ rest, refl)
framed-cons (b ∷ p) rest = elim (Bool-cases (b == telnet_iac)) [
  | inl e ↦ (telnet_iac, telnet_iac ∷ framed p rest, rw e)
  | inr e ↦ (b, framed p rest, rw e)
]

-- A payload that fits is read back whole, and a longer one is refused before its end.
read_payload-framed :
    (sofar payload rest : Bytes)
    → read_payload sofar (framed payload rest) ≡ outcome sofar payload rest
read_payload-framed sofar [] rest = unfold read_payload append_field in rw append-nil (ground arith)
read_payload-framed sofar (b ∷ p) rest =
    elim (Bool-cases (leb (length sofar) max_subnegotiation_len)) [
      | inl fits ↦
          read_byte sofar b p rest (ground arith)
          ∙ read_payload-framed (sofar ++ b ∷ []) p rest
          ∙ rw append_assoc (ground (arith, length-append sofar (b ∷ [])))
      | inr big ↦
          let (c, t, e) = framed-cons (b ∷ p) rest in
          rw e (over sofar c t (ground arith) ∙ ground arith)
    ]

append_field-append : (p q : Bytes) → append_field (p ++ q) ≡ append_field p ++ append_field q
append_field-append [] q = unfold append_field in refl
append_field-append (b ∷ p) q =
    rw (append_field-cons b (p ++ q), append_field-cons b p)
      (ground (arith, append_field-append p q))

split_space-append :
    (pkg payload : Bytes)
    → split_space pkg ≡ none
    → split_space (pkg ++ b' ' ∷ payload) ≡ some (pkg, payload)
unfolding split_space
split_space-append [] payload h = refl
split_space-append (c ∷ pkg) payload h = ground (arith, split_space-append pkg payload)

encode_gmcp_frame-framed :
    (pkg payload rest : Bytes)
    → encode_gmcp_frame pkg payload ++ rest
      ≡ telnet_iac ∷ telnet_sb ∷ telnet_opt_gmcp ∷ framed (pkg ++ b' ' ∷ payload) rest
unfolding encode_gmcp_frame
encode_gmcp_frame-framed pkg payload rest =
    rw (append_field-append pkg (b' ' ∷ payload), append_field-cons b' ' payload)
      (simp append_assoc)

deliver :
    (s : Session) (pkg payload : Bytes)
    → s.has_gmcp_handler ≡ true
    → split_space pkg ≡ none
    → handle_gmcp_subnegotiation s (pkg ++ b' ' ∷ payload)
      ≡ record s { delivered = (pkg, payload) ∷ s.delivered }
unfolding handle_gmcp_subnegotiation
deliver s [] payload handler name = ground (arith, split_space-append [] payload)
deliver s (c ∷ pkg) payload handler name = ground (arith, split_space-append (c ∷ pkg) payload name)

module _ (to_lower : Bytes → Bytes) (equal_fold : Bytes → Bytes → Bool) where
  read_block :
      (s : Session) (opt : ℕ) (p rest : Bytes)
      → read_iac to_lower equal_fold s (telnet_sb ∷ opt ∷ framed p rest) ≡ (
          if leb (length p) max_subnegotiation_len
          then ok (handle_subnegotiation to_lower equal_fold s opt p, none, rest)
          else err too_long)
  unfolding read_iac read_subnegotiation
  read_block s opt p rest = ground (arith, read_payload-framed [] p rest)

  -- What the frame of a package name without a space and a body does when it is read after its
  -- first IAC, with a handler in place: it is delivered as it was sent, and reading goes on behind
  -- it, if name, space and body have at most 4096 bytes; and else it is refused.
  pub gmcp_frame_received :
      (s : Session) (pkg payload rest input : Bytes)
      → s.has_gmcp_handler ≡ true
      → split_space pkg ≡ none
      → encode_gmcp_frame pkg payload ++ rest ≡ telnet_iac ∷ input
      → read_iac to_lower equal_fold s input ≡ (
          if leb (length (pkg ++ b' ' ∷ payload)) max_subnegotiation_len
          then ok (record s { delivered = (pkg, payload) ∷ s.delivered }, none, rest)
          else err too_long)
  unfolding handle_subnegotiation
  gmcp_frame_received s pkg payload rest input handler name e =
      let body = pkg ++ b' ' ∷ payload in
      let at : input ≡ telnet_sb ∷ telnet_opt_gmcp ∷ framed body rest =
        cc (encode_gmcp_frame-framed pkg payload rest) in
      rw at
        (ground (arith, read_block s telnet_opt_gmcp body rest, deliver s pkg payload handler name))

  -- The window size that a client reports in a NAWS block, two bytes for each side, is the size that
  -- the session keeps, also where a byte is 255 and is sent twice; nothing else changes.
  pub naws_size_kept :
      (s : Session) (w h : ℕ) (rest : Bytes)
      → w < 65536
      → h < 65536
      → read_iac to_lower equal_fold s
          (telnet_sb ∷ telnet_opt_naws ∷ framed (w / 256 ∷ w % 256 ∷ h / 256 ∷ h % 256 ∷ []) rest)
        ≡ ok (record s { width = w; height = h }, none, rest)
  unfolding handle_subnegotiation
  naws_size_kept s w h rest hw hh =
      ground (arith, read_block s telnet_opt_naws (w / 256 ∷ w % 256 ∷ h / 256 ∷ h % 256 ∷ []) rest)
