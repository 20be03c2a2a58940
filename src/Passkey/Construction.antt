-- ===== src/Passkey/Construction.antt =====
-- WebAuthnConfig, the options and NewService of passkey/passkey.go. A PasskeyService keeps of the
-- settings what its methods read: the limit of a body, and the sink.
--
-- `Ceremonies` stands for packages protocol and webauthn, for the quoting of fmt, the clock and
-- uuid.NewV7. An interface value is `none` where it is nil. The limit of a body, which is signed, is not
-- negative.
pub mod Acceptance
use sulis.Base.{
  ℕ, Bool, ◌||◌, not, Option, none, some, List, [], ◌∷◌, ◌++◌, ◌==◌, ◌*◌, if◌then◌else◌,
}
use sulis.Base.Text.{Text, codes, is_empty, text_eq}
use sulis.Base.Decimal.{print_decimal}
use sulis.Error.{Result, ok, err, plain, wrapped}
use sulis.Error.Chain.{◌>>=◌, ◌>>◌, refuse_if, or_error}
use sulis.Passkey.{PasskeyStore, ChallengeStore, WebAuthn, PasskeyEvent, PasskeyService}

-- WebAuthnConfig
pub record RelyingParty : Type 0 where
  pub display_name : Text
  pub id : Text
  pub origins : List Text

-- webauthn.Config, as far as NewService fills it
pub record LibraryConfig : Type 0 where
  pub party : RelyingParty
  pub user_verification : Text
  pub resident_key : Text
  pub require_resident_key : Bool

-- the three values of UserVerificationRequirement, or of ResidentKeyRequirement
pub record Requirements : Type 0 where
  pub required : Text
  pub preferred : Text
  pub discouraged : Text

pub record Ceremonies (W D : Type 0) : Type 0 where
  pub verification : Requirements
  pub residence : Requirements
  -- webauthn.New
  pub new_webauthn : LibraryConfig → Result (WebAuthn W D)
  pub quote : Text → Text
  pub now : W → ℕ × W
  pub new_id : W → ℕ × W

pub record PasskeySettings (W : Type 0) : Type 0 where
  pub user_verification : Text
  pub resident_key : Text
  pub max_ceremony_body : ℕ
  pub event_sink : Option (PasskeyEvent → W → W)

abbrev pub default_max_ceremony_body : ℕ
default_max_ceremony_body = 64 * 1024

-- the value is one of the three
abbrev pub is_known : Requirements → Text → Bool
is_known r value =
    text_eq value r.required || (text_eq value r.preferred || text_eq value r.discouraged)

-- the cases of the switch after those of the stores
unfoldable pub check_party : RelyingParty → Result (Unit {0})
check_party party =
    refuse_if (is_empty party.id) (plain (codes "passkey: RPID must not be empty"))
    >> (refuse_if (is_empty party.display_name)
          (plain (codes "passkey: RPDisplayName must not be empty"))
        >> elim party.origins [
          | [] ↦ err (plain (codes "passkey: RPOrigins must list at least one allowed origin"))
          | (origin ∷ origins) ↦ ok tt
        ])

module _ {W : Type 0} where
  abbrev pub with_user_verification : Text → PasskeySettings W → PasskeySettings W
  with_user_verification uv c = record c { user_verification = uv }

  abbrev pub with_resident_key : Text → PasskeySettings W → PasskeySettings W
  with_resident_key rk c = record c { resident_key = rk }

  abbrev pub with_max_ceremony_body : ℕ → PasskeySettings W → PasskeySettings W
  with_max_ceremony_body most c = record c { max_ceremony_body = most }

  abbrev pub with_event_sink : Option (PasskeyEvent → W → W) → PasskeySettings W → PasskeySettings W
  with_event_sink sink c = record c { event_sink = sink }

  -- the loop over the options
  unfoldable pub apply_options :
      List (PasskeySettings W → PasskeySettings W) → PasskeySettings W → PasskeySettings W
  apply_options [] cfg = cfg
  apply_options (opt ∷ opts) cfg = apply_options opts (opt cfg)

module _ {W D : Type 0} (kit : Ceremonies W D) where
  abbrev pub default_settings : PasskeySettings W
  default_settings = record {
    user_verification = kit.verification.required;
    resident_key = kit.residence.required;
    max_ceremony_body = default_max_ceremony_body;
    event_sink = none;
  }

  unfoldable pub check_settings : PasskeySettings W → Result (Unit {0})
  check_settings cfg =
      refuse_if (not (is_known kit.verification cfg.user_verification)) (
        plain (
          codes "passkey: invalid user verification requirement "
          ++ kit.quote cfg.user_verification))
      >> (refuse_if (not (is_known kit.residence cfg.resident_key)) (
            plain
              (codes "passkey: invalid resident key requirement " ++ kit.quote cfg.resident_key))
          >> refuse_if (cfg.max_ceremony_body == 0) (
              plain (
                codes "passkey: invalid max ceremony body "
                ++ (print_decimal cfg.max_ceremony_body ++ codes " (must be > 0)"))))

  abbrev pub library_config : RelyingParty → PasskeySettings W → LibraryConfig
  library_config party cfg = record {
    party = party;
    user_verification = cfg.user_verification;
    resident_key = cfg.resident_key;
    require_resident_key = text_eq cfg.resident_key kit.residence.required;
  }

  unfoldable pub new_service :
      Option (PasskeyStore W)
      → Option (ChallengeStore W)
      → RelyingParty
      → List (PasskeySettings W → PasskeySettings W)
      → Result (PasskeyService W D)
  new_service store challenges party opts =
      let cfg = apply_options opts default_settings in
      do
        s ← or_error store (plain (codes "passkey: store must not be nil"))
        c ← or_error challenges (plain (codes "passkey: challenge store must not be nil"))
        check_party party
        check_settings cfg
        elim (kit.new_webauthn (library_config party cfg)) [
          | err e ↦ err (wrapped (codes "passkey: initializing webauthn") e)
          | ok wa ↦ ok (record {
            wa = wa;
            store = s;
            challenges = c;
            max_ceremony_body = cfg.max_ceremony_body;
            event_sink = cfg.event_sink;
            now = kit.now;
            new_id = kit.new_id;
          })
        ]
