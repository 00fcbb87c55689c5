-- ===== src/Hostname/Tests.antt =====
-- Host names at concrete inputs.
use ocserv.Prelude.{◌≡◌, ◌↔◌, true, some, [], ◌∷◌, Bytes}
use ocserv.Hostname.{valid_fqdn}
use ocserv.Hostname.Grammar.{IsFqdn, valid_fqdn-IsFqdn}

-- "a.b" and "a.b:80"
abbrev name : Bytes
name = 97 ∷ 46 ∷ 98 ∷ []

abbrev with_port : Bytes
with_port = 97 ∷ 46 ∷ 98 ∷ 58 ∷ 56 ∷ 48 ∷ []

valid_fqdn-IsFqdn_example : (valid_fqdn (some name) ≡ true) ↔ IsFqdn name
valid_fqdn-IsFqdn_example = valid_fqdn-IsFqdn name
