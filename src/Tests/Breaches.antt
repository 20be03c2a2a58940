-- ===== src/Tests/Breaches.antt =====
-- Examples for the range API of passwordcheck, and for NewService of totp.
use sulis.Base.{◌≡◌, ◌↔◌, refl, true, List, [], ◌∷◌, ◌++◌, some, none, is_some}
use sulis.Base.Lists.{take, drop}
use sulis.Base.Text.{Text, codes, text_eq, trim_space, before, contains, to_lower}
use sulis.Base.Decimal.{read_digits}
use sulis.Error.{ok, err, sentinel, password_compromised}
use sulis.PasswordCheck.Hibp
use sulis.PasswordCheck.Hibp.{Response, Web, Hibp, default_hibp, check}
use sulis.PasswordCheck.Hibp.Privacy.{check-private, check_fails_open, HasHit}
use sulis.Memstore.Totp.{TotpSlots}
use sulis.Totp.{TotpService}
use sulis.Tests.Codes.{authenticator}
use sulis.Totp.Construction.{
  Kit, TotpSettings, new_service, apply_options, default_settings, with_digits,
  without_rate_limiting, without_secret_encryption,
}
use sulis.Totp.Construction.Acceptance.{new_service-ok_iff, IsAccepted}

-- a server that keeps the URLs, the latest first; a "hash" is five digits and the password
abbrev web : Web (List Text)
web = record {
  sha1_upper_hex = λ password. codes "ABCDE" ++ password;
  request_error = λ url. none;
  fetch = λ timeout url urls. (
    ok (record {
      status_ok = true;
      status = codes "200 OK";
      lines = codes "x:0" ∷ codes "pw:3" ∷ [];
      read_error = none;
    }),
    url ∷ urls,
  );
  parse_error = λ text. sentinel password_compromised;
}

check-private_example :
    (check web default_hibp (codes "pw") []).1 ≡ (check web default_hibp (codes "other") []).1
unfolding take
check-private_example =
    check-private web default_hibp (codes "pw") (codes "other") [] (λ e. cc) (λ e. cc) refl

refused : (check web default_hibp (codes "pw") []).0 ≡ err (sentinel password_compromised)
unfolding check Hibp.lookup Hibp.scan_lines contains trim_space text_eq to_lower before drop
    Hibp.parse_magnitude read_digits
refused = refl

check_fails_open_example :
    (sentinel password_compromised ≡ sentinel password_compromised)
    × ((response : Response) × ((web.fetch default_hibp.timeout
            (default_hibp.base_url ++ codes "ABCDE")
            []).0
          ≡ ok response)
        × HasHit web default_hibp (codes "pw") response.lines)
unfolding take drop
check_fails_open_example =
    check_fails_open web default_hibp (codes "pw") [] (sentinel password_compromised) refl refused

abbrev kit : Kit TotpSlots
kit = record {
  now = authenticator.now;
  new_id = authenticator.new_id;
  random_base32 = λ n. authenticator.random_secret;
  decode_base32 = authenticator.decode_base32;
  hmac_with = λ algorithm. authenticator.hmac;
  path_escape = λ text. text;
  query_escape = λ text. text;
}

abbrev options : List (TotpSettings TotpSlots → TotpSettings TotpSlots)
options = with_digits 8 ∷ without_rate_limiting ∷ without_secret_encryption ∷ []

new_service-ok_iff_example :
    let chosen = apply_options options (default_settings (codes "App")) in
    ((s : TotpService TotpSlots) × (new_service kit (some authenticator.store) (codes "App") options
        ≡ ok s)
      × (s.cfg ≡ chosen.core))
    ↔ ((is_some (some authenticator.store) ≡ true) × IsAccepted chosen)
new_service-ok_iff_example = new_service-ok_iff kit (some authenticator.store) (codes "App") options
