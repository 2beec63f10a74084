-- ===== src/Telnet/Iac.antt =====
-- telnet/iac.go, telnet/mssp.go, the GMCP framing of telnet/session.go and DetectColorLevel of
-- telnet/color.go: reading a telnet command, reading and handling a subnegotiation, answering an
-- option, and encoding blocks. The reader is the list of the bytes to come; at its end a read
-- fails. The session is a record of the fields that negotiation touches; `written` lists the blocks
-- given to `WriteRaw`, `delivered` the calls of the GMCP handler. Logging is left out.
-- `strings.ToLower` and `strings.EqualFold` are the parameters `to_lower` and `equal_fold`.
pub mod Wire
pub mod Framing
pub mod Options
mod Tests
use wheel_mud.Base.{
  ℕ, ◌+◌, ◌*◌, Bool, true, false, ◌||◌, Option, none, some, List, [], ◌∷◌, ◌++◌, length, leb, ltb,
  ◌==◌, if◌then◌else◌,
}
unfoldable pub use Wire.*
use wheel_mud.Base.Text.{Bytes, codes, contains, one_of}

-- `mssp_provider` is none for a nil closure, and otherwise the variables that it returns.
pub record Session : Type 0 where
  pub terminal_type : Bytes
  pub color_level : ℕ
  pub width : ℕ
  pub height : ℕ
  pub charset : Bytes
  pub gmcp_enabled : Bool
  pub has_gmcp_handler : Bool
  pub mssp_provider : Option (List MsspVar)
  pub mssp_sent : Bool
  pub written : List Bytes
  pub delivered : List (Bytes × Bytes)

pub data ReadError : Type 0 where
  end_of_input too_long : ReadError

pub data Read {ℓ} (A : Type ℓ) : Type ℓ where
  ok : A → Read A
  err : ReadError → Read A

unfoldable pub handle_gmcp_subnegotiation : Session → Bytes → Session
handle_gmcp_subnegotiation s [] = s
handle_gmcp_subnegotiation s (b ∷ bs) =
    if s.has_gmcp_handler
    then elim (split_space (b ∷ bs)) [
      | some (pkg, body) ↦ record s { delivered = (pkg, body) ∷ s.delivered }
      | none ↦ record s { delivered = (b ∷ bs, codes "null") ∷ s.delivered }
    ]
    else s

-- The bytes of the block between SB and SE, and what follows it, from the loop of
-- `readSubnegotiation`; `data` has been read.
unfoldable pub read_payload : Bytes → Bytes → Read (Bytes × Bytes)
read_payload sofar [] =
    if ltb max_subnegotiation_len (length sofar) then err too_long else err end_of_input
read_payload sofar (d ∷ []) =
    let rest = read_payload (sofar ++ d ∷ []) [] in
    if ltb max_subnegotiation_len (length sofar)
    then err too_long
    else if d == telnet_iac
    then err end_of_input
    else rest
read_payload sofar (d ∷ n ∷ r) =
    let plain = read_payload (sofar ++ d ∷ []) (n ∷ r) in
    let escaped = read_payload (sofar ++ telnet_iac ∷ []) r in
    if ltb max_subnegotiation_len (length sofar)
    then err too_long
    else if d == telnet_iac
    then (if n == telnet_se
        then ok (sofar, r)
        else if n == telnet_iac
        then escaped
        else ok (sofar, r))
    else plain

module _ (to_lower : Bytes → Bytes) (equal_fold : Bytes → Bytes → Bool) where
  unfoldable pub detect_color_level : Bytes → ℕ
  detect_color_level term =
      let t = to_lower term in
      if one_of t
        (codes "xterm-direct" ∷ codes "xterm-truecolor" ∷ codes "iterm" ∷ codes "iterm2" ∷ [])
      then 16777216
      else if one_of t (
          codes "xterm-256color"
          ∷ codes "rxvt-unicode-256color"
          ∷ codes "screen-256color"
          ∷ codes "mudlet"
          ∷ [])
      then 256
      else if one_of t (codes "xterm" ∷ codes "vt100" ∷ codes "ansi" ∷ codes "linux" ∷ [])
      then 16
      else if one_of t (codes "dumb" ∷ codes "unknown" ∷ [])
      then 0
      else if contains t (codes "truecolor")
          || contains t (codes "24bit")
          || contains t (codes "direct")
      then 16777216
      else if contains t (codes "256")
      then 256
      else if contains t (codes "color")
      then 16
      else 16

  handle_charset_subnegotiation : Session → Bytes → Session
  handle_charset_subnegotiation s [] = s
  handle_charset_subnegotiation s (c ∷ name) =
      if c == 2
      then (if equal_fold name (codes "UTF-8") then record s { charset = codes "UTF-8" } else s)
      else s

  term_type_received : Session → Bytes → Session
  term_type_received s (z ∷ c ∷ name) =
      if z == 0
      then record s { terminal_type = c ∷ name; color_level = detect_color_level (c ∷ name) }
      else s
  term_type_received s _ = s

  naws_received : Session → Bytes → Session
  naws_received s (w ∷ w' ∷ h ∷ h' ∷ more) = record s {
    width = w * 256 + w';
    height = h * 256 + h';
  }
  naws_received s _ = s

  unfoldable pub handle_subnegotiation : Session → ℕ → Bytes → Session
  unfolding handle_charset_subnegotiation term_type_received naws_received
  handle_subnegotiation s opt payload =
      if opt == telnet_opt_term_type
      then term_type_received s payload
      else if opt == telnet_opt_naws
      then naws_received s payload
      else if opt == telnet_opt_charset
      then handle_charset_subnegotiation s payload
      else if opt == telnet_opt_gmcp
      then handle_gmcp_subnegotiation s payload
      else s

  unfoldable pub read_subnegotiation : Session → Bytes → Read (Session × Bytes)
  read_subnegotiation s [] = err end_of_input
  read_subnegotiation s (opt ∷ r) = elim (read_payload [] r) [
    | err e ↦ err e
    | ok (payload, rest) ↦ ok (handle_subnegotiation s opt payload, rest)
  ]

  write_raw : Session → Bytes → Session
  write_raw s block = record s { written = block ∷ s.written }

  -- The answer to DO MSSP once the compare-and-swap has been won.
  answer_mssp : Session → List MsspVar → Session
  unfolding write_raw
  answer_mssp s [] = s
  answer_mssp s (v ∷ vs) = write_raw s (encode_mssp (v ∷ vs))

  unfoldable pub handle_option_negotiation : Session → ℕ → ℕ → Session
  unfolding write_raw answer_mssp
  handle_option_negotiation s cmd opt =
      if cmd == telnet_do
      then (if opt == telnet_opt_charset
          then write_raw s (build_charset_request (codes "UTF-8"))
          else if opt == telnet_opt_mssp
          then elim s.mssp_provider [
            | none ↦ s
            | some vars ↦
                if s.mssp_sent then s else answer_mssp (record s { mssp_sent = true }) vars
          ]
          else if opt == telnet_opt_gmcp
          then record s { gmcp_enabled = true }
          else s)
      else s

  abbrev is_option_command : ℕ → Bool
  is_option_command cmd =
      cmd == telnet_will || cmd == telnet_wont || cmd == telnet_do || cmd == telnet_dont

  option_read : Session → ℕ → Bytes → Read (Session × Option ℕ × Bytes)
  option_read s cmd [] = err end_of_input
  option_read s cmd (opt ∷ r) = ok (handle_option_negotiation s cmd opt, none, r)

  abbrev no_data : Read (Session × Bytes) → Read (Session × Option ℕ × Bytes)
  no_data (ok (s, r)) = ok (s, none, r)
  no_data (err e) = err e

  -- The byte of data, if there is one, comes with the session and the rest of the input. All other
  -- commands, known or not, are dropped.
  unfoldable pub read_iac : Session → Bytes → Read (Session × Option ℕ × Bytes)
  unfolding option_read
  read_iac s [] = err end_of_input
  read_iac s (cmd ∷ r) =
      if cmd == telnet_iac
      then ok (s, some telnet_iac, r)
      else if cmd == telnet_sb
      then no_data (read_subnegotiation s r)
      else if is_option_command cmd
      then option_read s cmd r
      else ok (s, none, r)
