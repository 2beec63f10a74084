-- ===== src/Telnet/Iac/Tests.antt =====
-- Runs of telnet/iac.go, with case folding that leaves every byte as it is.
use wheel_mud.Base.{
  ℕ, ◌≡◌, refl, Bool, true, false, none, some, List, [], ◌∷◌, ◌++◌, length, leb, if◌then◌else◌,
}
use wheel_mud.Base.Text.{Bytes, codes, same}
use wheel_mud.Telnet.Iac.{
  Session, ok, err, too_long, telnet_iac, telnet_se, telnet_sb, telnet_do, telnet_opt_mssp,
  telnet_opt_gmcp, max_subnegotiation_len, split_space, encode_gmcp_frame, append_field, read_iac,
}
use wheel_mud.Telnet.Iac.Framing.{gmcp_frame_received}

abbrev lower : Bytes → Bytes
lower s = s

abbrev fold : Bytes → Bytes → Bool
fold s t = same s t

abbrev fresh : Session
fresh = record {
  terminal_type = [];
  color_level = 0;
  width = 80;
  height = 24;
  charset = [];
  gmcp_enabled = true;
  has_gmcp_handler = true;
  mssp_provider = some [];
  mssp_sent = false;
  written = [];
  delivered = [];
}

abbrev input : Bytes
input =
    telnet_sb ∷ telnet_opt_gmcp ∷ (codes "Char.Vitals {}" ++ telnet_iac ∷ telnet_se ∷ codes "look")

one_word : split_space (codes "Char.Vitals") ≡ none
unfolding split_space
one_word = refl

frame_read :
    encode_gmcp_frame (codes "Char.Vitals") (codes "{}") ++ codes "look" ≡ telnet_iac ∷ input
unfolding encode_gmcp_frame append_field
frame_read = refl

gmcp_frame_received_example : read_iac lower fold fresh input ≡ (
    if leb (length (codes "Char.Vitals" ++ b' ' ∷ codes "{}")) max_subnegotiation_len
    then ok (
      record fresh { delivered = (codes "Char.Vitals", codes "{}") ∷ fresh.delivered },
      none,
      codes "look",
    )
    else err too_long)
gmcp_frame_received_example =
    gmcp_frame_received lower fold fresh (codes "Char.Vitals") (codes "{}") (codes "look") input
      refl one_word frame_read

abbrev asked : List (ℕ × ℕ)
asked = (telnet_do, telnet_opt_mssp) ∷ (telnet_do, telnet_opt_mssp) ∷ []
