-- ===== src/Tests/Codes.antt =====
-- Examples for one-time codes, recovery codes and the password blocklist.
use sulis.Base.{◌≡◌, ◌≢◌, refl, List, true, none, some, [], ◌∷◌, arith}
use sulis.Base.Text
use sulis.Base.Text.{Text, codes}
use sulis.Base.Map.{Map, insert, lookup}
use sulis.Error.{ok}
use sulis.Exec.{pure}
use sulis.Totp.{Credential, TotpService}
use sulis.Totp.Code
use sulis.Totp.Enrollment
use sulis.Totp.Replay.{validate_sound, Accepted}
use sulis.Memstore.Totp
use sulis.Memstore.Totp.{TotpSlots}
use sulis.Memstore.Totp.Slots.{enrolls, steps, time_step_once}
use sulis.Memstore.Recovery.{consume_code, is_in, without}

abbrev enrolled : Credential
enrolled = record {
  id = 5;
  user_id = 7;
  secret = codes "ABC";
  verified = true;
  last_used_counter = 1;
  created_at = 0;
}

abbrev pub slots : TotpSlots
slots = record { active = (7, enrolled) ∷ []; pending = [] }

-- a minute and a half after the epoch, with a MAC of zeros
abbrev pub authenticator : TotpService TotpSlots
authenticator = record {
  store = record {
    get_active_totp = Totp.get_active_totp;
    get_pending_totp = Totp.get_pending_totp;
    enroll_pending = Totp.enroll_pending;
    replace_pending = Totp.replace_pending;
    confirm_enrollment = Totp.confirm_enrollment;
    save_totp = Totp.save_totp;
    delete_totp = Totp.delete_totp;
  };
  cfg = record { digits = 6; period = 30; skew = 0; limiter = none; encryptor = none };
  now = λ w. (90000000000, w);
  new_id = λ w. (9, w);
  random_secret = pure (codes "ABC");
  decode_base32 = λ text. some text;
  hmac = λ key message. 0 ∷ 0 ∷ 0 ∷ 0 ∷ 0 ∷ [];
}

validates :
    Enrollment.validate authenticator 7 (codes "000000") slots
    ≡ (ok tt, (Enrollment.validate authenticator 7 (codes "000000") slots).1)
unfolding Enrollment.validate Enrollment.allow Totp.get_active_totp lookup
    Enrollment.validate_against Enrollment.decrypt_secret Code.match_code Code.code_for Code.padded
    Code.word_at Code.last_byte Text.text_eq Enrollment.accept Totp.save_totp insert
validates = refl

validate_sound_example :
    Accepted authenticator
      (validate_sound authenticator 7
        (codes "000000")
        slots
        (Enrollment.validate authenticator 7 (codes "000000") slots).1
        validates).0
      (codes "000000")
      (validate_sound authenticator 7
        (codes "000000")
        slots
        (Enrollment.validate authenticator 7 (codes "000000") slots).1
        validates).2
      (Enrollment.validate authenticator 7 (codes "000000") slots).1
validate_sound_example =
    (validate_sound authenticator 7 (codes "000000") slots
      (Enrollment.validate authenticator 7 (codes "000000") slots).1 validates).4

abbrev third : Credential
third = record enrolled { last_used_counter = 3 }

third_saved : (Totp.save_totp third slots).0 ≡ ok tt
unfolding Totp.save_totp lookup insert
third_saved = refl

time_step_once_example :
    (Totp.save_totp third (steps (enrolls enrolled ∷ []) (Totp.save_totp third slots).1)).0 ≢ ok tt
time_step_once_example =
    time_step_once third third (enrolls enrolled ∷ []) slots third_saved refl (omega arith)

abbrev typed : Text
typed = codes "ab-c d"

abbrev hashes : Map (List Text)
hashes = (7, (1 ∷ []) ∷ (2 ∷ []) ∷ []) ∷ []

one_left : (consume_code 7 (1 ∷ []) hashes).0 ≡ ok 1
unfolding consume_code lookup is_in without Text.text_eq insert
one_left = refl

other_held : is_in (2 ∷ []) ((1 ∷ []) ∷ (2 ∷ []) ∷ []) ≡ true
unfolding is_in Text.text_eq
other_held = refl

two_held : lookup 7 hashes ≡ some ((1 ∷ []) ∷ (2 ∷ []) ∷ [])
unfolding lookup
two_held = refl

different : ◌≢◌ {A = Text} (2 ∷ []) (1 ∷ [])
different = ground arith

same_folded : Text.to_lower (codes "ACME") ≡ Text.to_lower (codes "Acme")
unfolding Text.to_lower Text.lower_byte
same_folded = refl
