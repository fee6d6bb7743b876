-- ===== src/Db/Settings/Laws.antt =====
-- What is read of the settings of crates/paur-db after a write.
use paur.Prelude.{
  ◌≡◌, refl, ap, ◌∙◌, true, false, some, List, [], ◌∷◌, ◌++◌, arith, if◌then◌else◌, any, inl, inr,
  Bool-cases, sym,
}
use paur.Prelude.Tables.{find, update}
use paur.Prelude.Text.{Text, text_eq, text_eq_refl, eq_of_text_eq}
use paur.Db.Models.{Db, Setting}
use paur.Db.Settings.{keyed, value_of, get_setting, set_setting}

module _ (key value : Text) where
  updated : List Setting → List Setting
  unfolding update
  updated ss = update (keyed key) (λ s. record s { value = value }) ss

  find-updated :
      (ss : List Setting)
      → any (keyed key) ss ≡ true
      → value_of (find (keyed key) (updated ss)) ≡ some value
  unfolding find updated update
  find-updated [] h = absurd (ground arith)
  find-updated (s ∷ ss) h = elim (Bool-cases (keyed key s)) [
    | inl e ↦ rw (e, e) refl
    | inr e ↦ rw (e, e) (find-updated ss (ground arith))
  ]

  find-updated_ne :
      (other : Text) (ss : List Setting)
      → text_eq key other ≡ false
      → value_of (find (keyed other) (updated ss)) ≡ value_of (find (keyed other) ss)
  unfolding find updated update
  find-updated_ne other [] h = refl
  find-updated_ne other (s ∷ ss) h =
      ground (arith, find-updated_ne other ss h, eq_of_text_eq s.key key)

  find-added :
      (ss : List Setting)
      → any (keyed key) ss ≡ false
      → value_of (find (keyed key) (ss ++ record { key = key; value = value } ∷ [])) ≡ some value
  unfolding find
  find-added [] h = rw (text_eq_refl key) refl
  find-added (s ∷ ss) h = ground (arith, find-added ss)

  find-added_ne :
      (other : Text) (ss : List Setting)
      → text_eq key other ≡ false
      → value_of (find (keyed other) (ss ++ record { key = key; value = value } ∷ []))
        ≡ value_of (find (keyed other) ss)
  unfolding find
  find-added_ne other [] h = rw h refl
  find-added_ne other (s ∷ ss) h = ground (arith, find-added_ne other ss h)

-- After a write the key has the value that was written, whether or not it had one before, and every
-- other key has the value that it had.
pub get_setting-set_setting :
    (key other value : Text) (d : Db)
    → get_setting other (set_setting key value d)
      ≡ (if text_eq key other then some value else get_setting other d)
unfolding get_setting set_setting updated
get_setting-set_setting key other value d = elim (Bool-cases (text_eq key other)) [
  | inl e ↦
      let same = eq_of_text_eq key other e in
      elim (Bool-cases (any (keyed key) d.settings)) [
        | inl there ↦
            rw (e, there)
              (ap (λ k. value_of (find (keyed k) (updated key value d.settings))) (sym same)
                ∙ find-updated key value d.settings there)
        | inr absent ↦
            rw (e, absent)
              (ap
                  (λ k.
                    value_of
                      (find (keyed k) (d.settings ++ record { key = key; value = value } ∷ [])))
                  (sym same)
                ∙ find-added key value d.settings absent)
      ]
  | inr e ↦ elim (Bool-cases (any (keyed key) d.settings)) [
    | inl there ↦ rw (e, there) (find-updated_ne key value other d.settings e)
    | inr absent ↦ rw (e, absent) (find-added_ne key value other d.settings e)
  ]
]
