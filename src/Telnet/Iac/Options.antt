-- ===== src/Telnet/Iac/Options.antt =====
-- The answers to option negotiation (telnet/iac.go, handleOptionNegotiation).
use wheel_mud.Base.{ℕ, ◌+◌, ◌≤◌, Bool, false, List, [], ◌∷◌, arith, ◌==◌, if◌then◌else◌}
use wheel_mud.Base.Text.{Bytes}
use wheel_mud.Telnet.Iac.{
  Session, telnet_opt_mssp, encode_mssp, handle_option_negotiation, build_charset_request,
}

-- A block is one for MSSP by its third byte.
abbrev pub is_mssp : Bytes → Bool
is_mssp (_ ∷ _ ∷ o ∷ _) = o == telnet_opt_mssp
is_mssp _ = false

unfoldable pub mssp_blocks : List Bytes → ℕ
mssp_blocks [] = 0
mssp_blocks (b ∷ bs) = (if is_mssp b then 1 else 0) + mssp_blocks bs

module _ (to_lower : Bytes → Bytes) (equal_fold : Bytes → Bytes → Bool) where
  unfoldable pub negotiate_all : Session → List (ℕ × ℕ) → Session
  negotiate_all s [] = s
  negotiate_all s ((cmd, opt) ∷ more) =
      negotiate_all (handle_option_negotiation to_lower equal_fold s cmd opt) more

  abbrev unsent : Session → ℕ
  unsent s = if s.mssp_sent then 0 else 1

  negotiate-mssp :
      (s : Session) (cmd opt : ℕ)
      → let n = handle_option_negotiation to_lower equal_fold s cmd opt in
        mssp_blocks n.written + unsent n ≤ mssp_blocks s.written + unsent s
  unfolding handle_option_negotiation mssp_blocks encode_mssp build_charset_request
  negotiate-mssp s cmd opt = ground arith

  -- However a client repeats its requests, a session writes at most one MSSP block in answer to all
  -- of them, and none once it counts the block as sent.
  pub mssp_once :
      (s : Session) (requests : List (ℕ × ℕ))
      → mssp_blocks (negotiate_all s requests).written + unsent (negotiate_all s requests)
        ≤ mssp_blocks s.written + unsent s
  unfolding negotiate_all
  mssp_once s [] = omega arith
  mssp_once s ((cmd, opt) ∷ more) =
      let n = handle_option_negotiation to_lower equal_fold s cmd opt in
      omega (arith, negotiate-mssp s cmd opt, mssp_once n more)
