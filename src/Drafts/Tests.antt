-- ===== src/Drafts/Tests.antt =====
-- Runs of app/applicant/drafts.py and app/applicant/confirmations.py.
use ehf_applications.Prelude.{
  ℕ, String, nat_eq, string_eq, ◌≢◌, ◌⊎◌, refl, Bool, true, false, Option, none, some, [], ◌∷◌, ◌+◌,
  ne_of_beq, ok, err, inl, inr, not, ◌==◌,
}
use ehf_applications.Drafts.{
  Values, Drafts, DraftSnapshot, DraftError, locked, empty, save, lock, reopen, is_locked, version,
  field_value, conflict,
}
use ehf_applications.Drafts.Saving.{save_lost_update}

abbrev name_five : Values ℕ
name_five = ("name", some 5) ∷ []

abbrev name_six : Values ℕ
name_six = ("name", some 6) ∷ ("title", none) ∷ []

abbrev nothing_saved : Drafts ℕ
nothing_saved = empty

abbrev first_draft : DraftSnapshot ℕ
first_draft = record {
  application_id = 1;
  section = "identity";
  values = name_five;
  row_version = 1;
  return_reason = none;
  returned_at_utc = none;
}

abbrev one_saved : Drafts ℕ
one_saved = record {
  drafts = ((1, "identity"), first_draft) ∷ [];
  locked_ids = [];
  reopened = [];
  corrections =
      record {
        application_id = 1;
        section = "identity";
        field = "name";
        before = none;
        after = some 5;
        source = "APPLICANT";
      }
      ∷ [];
}

abbrev second_draft : DraftSnapshot ℕ
second_draft = record {
  application_id = 1;
  section = "identity";
  values = ("name", some 6) ∷ [];
  row_version = 2;
  return_reason = none;
  returned_at_utc = none;
}

save_lost_update_example :
    (save 1 "identity" name_six none "ADMINISTRATOR"
      (save 1 "identity" name_five none "APPLICANT" nothing_saved).1).0
    ≢ ok second_draft
unfolding save ehf_applications.Prelude.member ehf_applications.Prelude.Dict.get
    ehf_applications.Drafts.merge ehf_applications.Prelude.Dict.put
save_lost_update_example =
    save_lost_update 1 "identity" "APPLICANT" "ADMINISTRATOR" name_five name_six none nothing_saved
      first_draft second_draft refl
