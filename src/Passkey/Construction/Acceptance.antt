-- ===== src/Passkey/Construction/Acceptance.antt =====
-- What NewService of passkey/passkey.go accepts.
use sulis.Base.{◌≡◌, ◌≢◌, ◌↔◌, refl, true, Option, none, some, List, [], is_some, arith, inl, inr}
use sulis.Error.{ok, Result-cases}
use sulis.Passkey.{PasskeyStore, ChallengeStore, WebAuthn, PasskeyService}
use sulis.Passkey.Construction.{
  Ceremonies, RelyingParty, PasskeySettings, apply_options, default_settings, check_party,
  check_settings, is_known, library_config, new_service,
}

-- the relying party has an id, a name and an origin
pub record IsNamed (party : RelyingParty) : Type 0 where
  pub some_id : party.id ≢ []
  pub some_name : party.display_name ≢ []
  pub some_origin : party.origins ≢ []

check_party-IsNamed : (party : RelyingParty) → check_party party ≡ ok tt → IsNamed party
unfolding check_party
check_party-IsNamed party h = record {
  some_id = ground (arith, h);
  some_name = ground (arith, h);
  some_origin = ground (arith, h);
}

IsNamed-check_party : (party : RelyingParty) → IsNamed party → check_party party ≡ ok tt
unfolding check_party
IsNamed-check_party party n = ground (arith, n.some_id, n.some_name, n.some_origin)

module _ {W D : Type 0} (kit : Ceremonies W D) where
  pub record IsAccepted (cfg : PasskeySettings W) : Type 0 where
    pub verification : is_known kit.verification cfg.user_verification ≡ true
    pub residence : is_known kit.residence cfg.resident_key ≡ true
    pub some_body : cfg.max_ceremony_body ≢ 0

  check_settings-IsAccepted :
      (cfg : PasskeySettings W) → check_settings kit cfg ≡ ok tt → IsAccepted cfg
  unfolding check_settings
  check_settings-IsAccepted cfg h = record {
    verification = ground (arith, h);
    residence = ground (arith, h);
    some_body = ground (arith, h);
  }

  IsAccepted-check_settings :
      (cfg : PasskeySettings W) → IsAccepted cfg → check_settings kit cfg ≡ ok tt
  unfolding check_settings
  IsAccepted-check_settings cfg a = ground (arith, a.verification, a.residence, a.some_body)

  -- NewService of package passkey returns a service exactly if neither store is nil, the relying party
  -- has an id, a name and an origin, the requirements on user verification and resident keys are each
  -- one of the three that there are, some body is allowed, and webauthn accepts the relying party with
  -- the chosen requirements, of which a required resident key sets the legacy flag. The service has the
  -- stores, the chosen limit on a body, and webauthn for that configuration.
  pub new_service-starts_iff :
      (store : Option (PasskeyStore W)) (challenges : Option (ChallengeStore W))
      (party : RelyingParty) (opts : List (PasskeySettings W → PasskeySettings W))
      → let chosen = apply_options opts (default_settings kit) in
        ((s : PasskeyService W D) × (new_service kit store challenges party opts ≡ ok s)
          × (store ≡ some s.store)
          × (challenges ≡ some s.challenges)
          × (s.max_ceremony_body ≡ chosen.max_ceremony_body)
          × (kit.new_webauthn (library_config kit party chosen) ≡ ok s.wa))
        ↔ ((is_some store ≡ true)
            × (is_some challenges ≡ true)
            × IsNamed party
            × IsAccepted chosen
            × ((wa : WebAuthn W D) × (kit.new_webauthn (library_config kit party chosen) ≡ ok wa)))
  unfolding new_service
  new_service-starts_iff none challenges party opts =
      (λ h. absurd (ground (arith, h.1)), λ h. absurd (ground (arith, h.0)))
  new_service-starts_iff (some s) none party opts =
      (λ h. absurd (ground (arith, h.1)), λ h. absurd (ground (arith, h.1)))
  new_service-starts_iff (some s) (some c) party opts =
      let chosen = apply_options opts (default_settings kit) in
      (
        λ (t, made, _, _, _, started). (
          refl,
          refl,
          check_party-IsNamed party (elim (Result-cases (check_party party)) [
            | inl (_, fine) ↦ fine
            | inr (e, wrong) ↦ absurd (ground (arith, made, wrong))
          ]),
          check_settings-IsAccepted chosen (elim (Result-cases (check_settings kit chosen)) [
            | inl (_, fine) ↦ fine
            | inr (e, wrong) ↦ absurd (ground (arith, made, wrong))
          ]),
          (t.wa, started),
        ),
        λ (_, _, named, accepted, (wa, started)).
            let fine_party = IsNamed-check_party party named in
            let fine = IsAccepted-check_settings chosen accepted in
            elim (Result-cases (new_service kit (some s) (some c) party opts)) [
              | inl (t, made) ↦ (
                t,
                made,
                ground (arith, made, fine_party, fine, started),
                ground (arith, made, fine_party, fine, started),
                ground (arith, made, fine_party, fine, started),
                ground (arith, made, fine_party, fine, started),
              )
              | inr (e, refused) ↦ absurd (ground (arith, refused, fine_party, fine, started))
            ],
      )
