-- ===== src/Config/TlsSection.antt =====
-- src/mg_web.c, `mg_parse_config`: the sections of TLS configurations. `strtod_is_zero` says whether the function
-- `strtod` of the C library gives 0.
use mg_web.Base.{
  ℕ, ◌+◌, List, [], ◌∷◌, Bool, true, false, not, ◌&&◌, ◌||◌, if◌then◌else◌, Option, none, some,
  take, drop, set,
}
use mg_web.Text.{CString, lcase, strcmp_eq, strncmp_eq}
use mg_web.Config.{
  TlsConfig, Effect, invalid_tls, invalid_directive, invalid_protocol, invalid_key_type,
  invalid_verify_peer,
}
use mg_web.Config.Keywords
use mg_web.Config.ServerSection.{assign, complain, no_effect}

abbrev pub null_protocols : List (Option CString)
null_protocols = none ∷ none ∷ none ∷ none ∷ none ∷ none ∷ none ∷ none ∷ []

abbrev pub new_tls : CString → TlsConfig
new_tls name = record {
  name = lcase name;
  libpath = none;
  cert_file = none;
  key_file = none;
  password = none;
  ca_file = none;
  ca_path = none;
  cipher_list = none;
  protocols = null_protocols;
  verify_peer = false;
  key_type = 0;
}

unfoldable pub is_protocol : (CString → Bool) → CString → Bool
is_protocol strtod_is_zero w =
    (strncmp_eq w Keywords.sslv_word 4 || strncmp_eq w Keywords.tlsv_word 4)
    && not (strtod_is_zero (drop 4 w))

-- The words in lower case in front of the first that is no protocol, and that one.
unfoldable pub read_protocols : (CString → Bool) → List CString → List CString × Option CString
unfolding is_protocol
read_protocols strtod_is_zero [] = ([], none)
read_protocols strtod_is_zero (w ∷ ws) =
    let rest = read_protocols strtod_is_zero ws in
    if is_protocol strtod_is_zero (lcase w)
    then (lcase w ∷ rest.0, rest.1)
    else ([], some (lcase w))

-- The stores, from place `n` of the array on.
unfoldable pub put_protocols : ℕ → List CString → List (Option CString) → List (Option CString)
put_protocols n [] protocols = protocols
put_protocols n (w ∷ ws) protocols = put_protocols (n + 1) ws (set protocols n (some w))

unfoldable pub protocol_list : (CString → Bool) → ℕ → List CString → Effect TlsConfig
unfolding read_protocols put_protocols
protocol_list strtod_is_zero ln ws =
    let found = read_protocols strtod_is_zero ws in
    record {
      update = elim found.0 [
        | [] ↦ none
        | w ∷ more ↦ some (λ t. record t { protocols = put_protocols 1 (w ∷ more) t.protocols })
      ];
      error = elim found.1 [ none ↦ none | some w ↦ some (invalid_protocol w ln) ];
    }

unfoldable pub key_type_of : ℕ → CString → Effect TlsConfig
key_type_of ln value =
    if strcmp_eq value Keywords.rsa_word
    then assign (λ t. record t { key_type = 0 })
    else if strcmp_eq value Keywords.dsa_word
    then assign (λ t. record t { key_type = 1 })
    else complain (invalid_key_type value ln)

unfoldable pub verify_peer_of : ℕ → CString → Effect TlsConfig
verify_peer_of ln value =
    if strcmp_eq value Keywords.on_word
      || strcmp_eq value Keywords.yes_word
      || strcmp_eq value Keywords.one_word
    then assign (λ t. record t { verify_peer = true })
    else if strcmp_eq value Keywords.off_word
        || strcmp_eq value Keywords.no_word
        || strcmp_eq value Keywords.zero_word
    then assign (λ t. record t { verify_peer = false })
    else complain (invalid_verify_peer value ln)

-- The parameter `key`, in lower case, on line `ln`, with the words behind it.
unfoldable pub tls_parameter :
    (CString → Bool) → ℕ → CString → CString → List CString → Effect TlsConfig
unfolding protocol_list key_type_of verify_peer_of
tls_parameter strtod_is_zero ln key value words =
    if strcmp_eq key Keywords.path_word
    then assign (λ s. record s { libpath = some value })
    else if strcmp_eq key Keywords.certificate_file
    then assign (λ s. record s { cert_file = some value })
    else if strcmp_eq key Keywords.key_file_word
    then assign (λ s. record s { key_file = some value })
    else if strcmp_eq key Keywords.password_word
    then assign (λ s. record s { password = some value })
    else if strcmp_eq key Keywords.ca_certificate_file
    then assign (λ s. record s { ca_file = some value })
    else if strcmp_eq key Keywords.ca_certificate_path
    then assign (λ s. record s { ca_path = some value })
    else if strcmp_eq key Keywords.cipher_list_word
    then assign (λ s. record s { cipher_list = some value })
    else if strcmp_eq key Keywords.protocols_word
    then protocol_list strtod_is_zero ln (take 7 (value ∷ words))
    else if strcmp_eq key Keywords.key_type_word
    then key_type_of ln (lcase value)
    else if strcmp_eq key Keywords.verify_peer_word
    then verify_peer_of ln (lcase value)
    else complain (invalid_tls key ln)

unfoldable pub tls_line : (CString → Bool) → ℕ → List CString → Effect TlsConfig
unfolding tls_parameter
tls_line strtod_is_zero ln [] = no_effect
tls_line strtod_is_zero ln (key ∷ []) = complain (invalid_directive key ln)
tls_line strtod_is_zero ln (key ∷ value ∷ words) =
    tls_parameter strtod_is_zero ln (lcase key) value words
