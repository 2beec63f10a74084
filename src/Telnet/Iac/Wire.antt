-- ===== src/Telnet/Iac/Wire.antt =====
-- The telnet constants of telnet/iac.go, the encoders of blocks in telnet/iac.go, telnet/mssp.go and
-- telnet/session.go, and `indexSpace`.
use wheel_mud.Base.{ℕ, Option, none, some, List, [], ◌∷◌, ◌++◌, ◌==◌, if◌then◌else◌}
use wheel_mud.Base.Text.{Bytes}

abbrev pub telnet_iac : ℕ
telnet_iac = 255

abbrev pub telnet_dont : ℕ
telnet_dont = 254

abbrev pub telnet_do : ℕ
telnet_do = 253

abbrev pub telnet_wont : ℕ
telnet_wont = 252

abbrev pub telnet_will : ℕ
telnet_will = 251

abbrev pub telnet_sb : ℕ
telnet_sb = 250

abbrev pub telnet_se : ℕ
telnet_se = 240

abbrev pub telnet_opt_term_type : ℕ
telnet_opt_term_type = 24

abbrev pub telnet_opt_naws : ℕ
telnet_opt_naws = 31

abbrev pub telnet_opt_charset : ℕ
telnet_opt_charset = 42

abbrev pub telnet_opt_mssp : ℕ
telnet_opt_mssp = 70

abbrev pub telnet_opt_gmcp : ℕ
telnet_opt_gmcp = 201

abbrev pub max_subnegotiation_len : ℕ
max_subnegotiation_len = 4096

pub record MsspVar : Type 0 where
  pub name : Bytes
  pub value : Bytes

-- The loop of `appendMSSPField` and `appendGMCPField`.
unfoldable pub append_field : Bytes → Bytes
append_field [] = []
append_field (b ∷ s) =
    let rest = append_field s in
    if b == telnet_iac then telnet_iac ∷ telnet_iac ∷ rest else b ∷ rest

unfoldable pub mssp_fields : List MsspVar → Bytes
mssp_fields [] = []
mssp_fields (v ∷ vs) = 1 ∷ (append_field v.name ++ 2 ∷ (append_field v.value ++ mssp_fields vs))

unfoldable pub encode_mssp : List MsspVar → Bytes
encode_mssp vars =
    telnet_iac ∷ telnet_sb ∷ telnet_opt_mssp ∷ (mssp_fields vars ++ telnet_iac ∷ telnet_se ∷ [])

-- `payload` is the body as JSON.
unfoldable pub encode_gmcp_frame : Bytes → Bytes → Bytes
encode_gmcp_frame pkg payload =
    telnet_iac
    ∷ telnet_sb
    ∷ telnet_opt_gmcp
    ∷ (append_field pkg ++ b' ' ∷ (append_field payload ++ telnet_iac ∷ telnet_se ∷ []))

unfoldable pub build_charset_request : Bytes → Bytes
build_charset_request charset =
    telnet_iac
    ∷ telnet_sb
    ∷ telnet_opt_charset
    ∷ 1
    ∷ b';'
    ∷ (charset ++ telnet_iac ∷ telnet_se ∷ [])

-- `indexSpace` with the slices on its two sides.
unfoldable pub split_space : Bytes → Option (Bytes × Bytes)
split_space [] = none
split_space (c ∷ s) =
    let rest = split_space s in
    if c == b' '
    then some ([], s)
    else elim rest [ none ↦ none | some (pkg, body) ↦ some (c ∷ pkg, body) ]
