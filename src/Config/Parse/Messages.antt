-- ===== src/Config/Parse/Messages.antt =====
-- src/mg_web.c, `mg_parse_config`: the messages of a line of short words fit into the array `config_error`.
use mg_web.Base.{
  ℕ, zero, suc, ◌+◌, ◌≤◌, ◌≡◌, refl, List, [], ◌∷◌, Bool, true, false, ◌||◌, if◌then◌else◌, ltb,
  Option, none, some, length, take, arith, All, if_both,
}
use mg_web.Text.{CString, lcase, strcmp_eq}
use mg_web.Config.{
  MgSys, Location, ConfigError, Effect, fits_array, digits, invalid_location, invalid_protocol,
}
use mg_web.Config.Keywords
use mg_web.Config.ServerSection.{server_line, server_parameter}
use mg_web.Config.TlsSection.{
  tls_line, tls_parameter, protocol_list, read_protocols, is_protocol, key_type_of, verify_peer_of,
}
use mg_web.Config.LocationSection.{
  LocationEffect, untouched, changes, location_effect, location_parameter, websocket, put_servers,
  put_load_balancing, put_administrator,
}
use mg_web.Config.LocationSection.Affinity.{affinity_words}
use mg_web.Config.GlobalSection.{global_line, global_parameter}

pub record Fits (e : Option ConfigError) : Type 0 where
  pub fits : fits_array e ≡ true

abbrev pub IsShort : CString → Type 0
IsShort w = length w ≤ 400

digits-le : (n : ℕ) → digits n ≤ 10
digits-le n = ground arith

text_fits :
    (n d : ℕ) (w : CString) → n ≤ 60 → d ≤ 10 → IsShort w → ltb (n + length w + d) 512 ≡ true
text_fits n d w small few short = ground arith

length-lcase : (s : CString) → length (lcase s) ≡ length s
unfolding lcase
length-lcase [] = refl
length-lcase (c ∷ s) = ground (arith, length-lcase s)

lcase-IsShort : (s : CString) → IsShort s → IsShort (lcase s)
lcase-IsShort s h = omega (arith, length-lcase s)

pub take-All : (n : ℕ) (ws : List CString) → All IsShort ws → All IsShort (take n ws)
take-All zero ws h = tt
take-All (suc n) [] h = tt
take-All (suc n) (w ∷ ws) (h, others) = (h, take-All n ws others)

-- What an effect says.
pub record Says {A : Type 0} (e : Effect A) : Type 0 where
  pub says : Fits e.error

silent : {A : Type 0} {f : Option (A → A)} → Says (record { update = f; error = none })
silent = record { says = record { fits = refl } }

-- What a line of a location says.
abbrev pub LocationSays : LocationEffect → Type 0
LocationSays (untouched e) = Fits e
LocationSays (changes f) = (l : Location) → Fits (f l).error

pub record Tells (e : LocationEffect) : Type 0 where
  pub tells : LocationSays e

pub record SysFits (sys : MgSys) : Type 0 where
  pub fits : Fits sys.config_error

module _ (ln : ℕ) where
  server_parameter-Says :
      (strtol : CString → ℕ) (key value : CString)
      → IsShort key
      → Says (server_parameter strtol ln key value)
  unfolding server_parameter
  server_parameter-Says strtol key value short =
      if_both Says (strcmp_eq key Keywords.type_word) silent (
        if_both Says (strcmp_eq key Keywords.path_word) silent (
          if_both Says (strcmp_eq key Keywords.host_word) silent (
            if_both Says (strcmp_eq key Keywords.tcp_port) silent (
              if_both Says (strcmp_eq key Keywords.username_word) silent (
                if_both Says (strcmp_eq key Keywords.password_word) silent (
                  if_both Says (strcmp_eq key Keywords.namespace_word) silent (
                    if_both Says (strcmp_eq key Keywords.input_device_word) silent (
                      if_both Says (strcmp_eq key Keywords.output_device_word) silent (
                        if_both Says (strcmp_eq key Keywords.idle_timeout_word) silent (
                          if_both Says (strcmp_eq key Keywords.health_check_word) silent (
                            if_both Says (strcmp_eq key Keywords.connection_retries) silent (
                              if_both Says (strcmp_eq key Keywords.max_connections_word) silent (
                                if_both Says (strcmp_eq key Keywords.tls_word) silent (record {
                                  says = record {
                                    fits =
                                        text_fits 38 (digits ln) key (omega arith) (digits-le ln)
                                          short;
                                  };
                                }))))))))))))))

  pub server_line-Says :
      (strtol : CString → ℕ) (words : List CString)
      → All IsShort words
      → Says (server_line strtol ln words)
  unfolding server_line
  server_line-Says strtol [] h = silent
  server_line-Says strtol (key ∷ []) h = silent
  server_line-Says strtol (key ∷ value ∷ words) (h, others) =
      server_parameter-Says strtol (lcase key) value (lcase-IsShort key h)

  abbrev ShortOption : Option CString → Type 0
  ShortOption none = Unit {0}
  ShortOption (some w) = IsShort w

  read_protocols-Short :
      (z : CString → Bool) (ws : List CString)
      → All IsShort ws
      → ShortOption (read_protocols z ws).1
  unfolding read_protocols
  read_protocols-Short z [] h = tt
  read_protocols-Short z (w ∷ ws) (h, others) =
      if_both (λ (r : List CString × Option CString). ShortOption r.1) (is_protocol z (lcase w))
        (read_protocols-Short z ws others) (lcase-IsShort w h)

  protocol_message :
      (o : Option CString)
      → ShortOption o
      → Fits (elim o [ none ↦ none | some w ↦ some (invalid_protocol w ln) ])
  protocol_message none h = record { fits = refl }
  protocol_message (some w) h = record {
    fits = text_fits 56 (digits ln) w (omega arith) (digits-le ln) h;
  }

  protocol_list-Says :
      (z : CString → Bool) (ws : List CString) → All IsShort ws → Says (protocol_list z ln ws)
  unfolding protocol_list
  protocol_list-Says z ws h = record {
    says = protocol_message (read_protocols z ws).1 (read_protocols-Short z ws h);
  }

  key_type_of-Says : (value : CString) → IsShort value → Says (key_type_of ln value)
  unfolding key_type_of
  key_type_of-Says value h = if_both Says (strcmp_eq value Keywords.rsa_word) silent (
      if_both Says (strcmp_eq value Keywords.dsa_word) silent (record {
        says = record { fits = text_fits 55 (digits ln) value (omega arith) (digits-le ln) h };
      }))

  verify_peer_of-Says : (value : CString) → IsShort value → Says (verify_peer_of ln value)
  unfolding verify_peer_of
  verify_peer_of-Says value h =
      if_both Says
        (strcmp_eq value Keywords.on_word
          || strcmp_eq value Keywords.yes_word
          || strcmp_eq value Keywords.one_word)
        silent
        (if_both Says
          (strcmp_eq value Keywords.off_word
            || strcmp_eq value Keywords.no_word
            || strcmp_eq value Keywords.zero_word)
          silent
          (record {
            says = record { fits = text_fits 58 (digits ln) value (omega arith) (digits-le ln) h };
          }))

  tls_parameter-Says :
      (z : CString → Bool) (key value : CString) (words : List CString)
      → IsShort key
      → All IsShort (value ∷ words)
      → Says (tls_parameter z ln key value words)
  unfolding tls_parameter
  tls_parameter-Says z key value words short others =
      if_both Says (strcmp_eq key Keywords.path_word) silent (
        if_both Says (strcmp_eq key Keywords.certificate_file) silent (
          if_both Says (strcmp_eq key Keywords.key_file_word) silent (
            if_both Says (strcmp_eq key Keywords.password_word) silent (
              if_both Says (strcmp_eq key Keywords.ca_certificate_file) silent (
                if_both Says (strcmp_eq key Keywords.ca_certificate_path) silent (
                  if_both Says (strcmp_eq key Keywords.cipher_list_word) silent (
                    if_both Says (strcmp_eq key Keywords.protocols_word)
                      (protocol_list-Says z (take 7 (value ∷ words))
                        (take-All 7 (value ∷ words) others))
                      (if_both Says (strcmp_eq key Keywords.key_type_word)
                        (key_type_of-Says (lcase value) (lcase-IsShort value others.0))
                        (if_both Says (strcmp_eq key Keywords.verify_peer_word)
                          (verify_peer_of-Says (lcase value) (lcase-IsShort value others.0))
                          (record {
                            says = record {
                              fits =
                                  text_fits 35 (digits ln) key (omega arith) (digits-le ln) short;
                            };
                          }))))))))))

  pub tls_line-Says :
      (z : CString → Bool) (words : List CString) → All IsShort words → Says (tls_line z ln words)
  unfolding tls_line
  tls_line-Says z [] h = silent
  tls_line-Says z (key ∷ []) (h, others) = record {
    says = record { fits = text_fits 35 (digits ln) key (omega arith) (digits-le ln) h };
  }
  tls_line-Says z (key ∷ value ∷ words) (h, others) =
      tls_parameter-Says z (lcase key) value words (lcase-IsShort key h) others

  affinity_message :
      (key : CString) (bad : Bool)
      → IsShort key
      → Fits (if bad then some (invalid_location key ln) else none)
  affinity_message key true h = record {
    fits = text_fits 40 (digits ln) key (omega arith) (digits-le ln) h;
  }
  affinity_message key false h = record { fits = refl }

  websocket-Tells :
      (memory : Bool) (value : CString) (words : List CString)
      → Tells (websocket memory value words)
  unfolding websocket
  websocket-Tells memory value [] = record { tells = record { fits = refl } }
  websocket-Tells true value (function ∷ ws) = record { tells = λ l. record { fits = refl } }
  websocket-Tells false value (function ∷ ws) = record { tells = record { fits = refl } }

  location_parameter-Tells :
      (memory : Bool) (key value : CString) (words : List CString)
      → IsShort key
      → Tells (location_parameter memory ln key value words)
  unfolding location_parameter put_servers put_load_balancing put_administrator
  location_parameter-Tells memory key value words short =
      if_both Tells (strcmp_eq key Keywords.function_word)
        (record { tells = λ l. record { fits = refl } })
        (if_both Tells (strcmp_eq key Keywords.websocket_word) (websocket-Tells memory value words)
          (if_both Tells (strcmp_eq key Keywords.servers_word)
            (record { tells = λ l. record { fits = refl } })
            (if_both Tells (strcmp_eq key Keywords.load_balancing_word)
              (record { tells = λ l. record { fits = refl } })
              (if_both Tells (strcmp_eq key Keywords.server_affinity)
                (record {
                  tells = λ l.
                      affinity_message key
                        (affinity_words (value ∷ words) (record l { sa_order = 0 })).2 short;
                })
                (if_both Tells (strcmp_eq key Keywords.administrator_word)
                  (record { tells = λ l. record { fits = refl } })
                  (record {
                    tells = record {
                      fits = text_fits 40 (digits ln) key (omega arith) (digits-le ln) short;
                    };
                  }))))))

  pub location_effect-Tells :
      (memory : Bool) (words : List CString)
      → All IsShort words
      → Tells (location_effect memory ln words)
  unfolding location_effect
  location_effect-Tells memory [] h = record { tells = record { fits = refl } }
  location_effect-Tells memory (key ∷ []) h = record { tells = record { fits = refl } }
  location_effect-Tells memory (key ∷ value ∷ words) (h, others) =
      location_parameter-Tells memory (lcase key) value words (lcase-IsShort key h)

  global_parameter-SysFits :
      (strtol : CString → ℕ) (key value : CString) (words : List CString) (sys : MgSys)
      → IsShort key
      → Fits sys.config_error
      → SysFits (global_parameter strtol ln key value words sys)
  unfolding global_parameter
  global_parameter-SysFits strtol key value words sys short h =
      if_both SysFits (strcmp_eq key Keywords.timeout_word) (record { fits = h })
        (if_both SysFits (strcmp_eq key Keywords.log_level_word) (record { fits = h })
          (if_both SysFits (strcmp_eq key Keywords.chunking_word) (record { fits = h })
            (if_both SysFits (strcmp_eq key Keywords.request_buffer_size_word) (record { fits = h })
              (if_both SysFits (strcmp_eq key Keywords.dbserver_unavailable) (record { fits = h })
                (if_both SysFits (strcmp_eq key Keywords.dbserver_busy) (record { fits = h })
                  (if_both SysFits (strcmp_eq key Keywords.dbserver_disabled) (record { fits = h })
                    (if_both SysFits (strcmp_eq key Keywords.dbserver_timeout) (record { fits = h })
                      (record {
                        fits = record {
                          fits = text_fits 38 (digits ln) key (omega arith) (digits-le ln) short;
                        };
                      }))))))))

  pub global_line-SysFits :
      (strtol : CString → ℕ) (words : List CString) (sys : MgSys)
      → All IsShort words
      → Fits sys.config_error
      → SysFits (global_line strtol ln words sys)
  unfolding global_line
  global_line-SysFits strtol [] sys short h = record { fits = h }
  global_line-SysFits strtol (key ∷ []) sys short h = record { fits = h }
  global_line-SysFits strtol (key ∷ value ∷ words) sys (short, others) h =
      global_parameter-SysFits strtol (lcase key) value words sys (lcase-IsShort key short) h
