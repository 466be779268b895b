-- ===== src/Evidence/Facts/Updates.antt =====
-- What an update of the facts leaves behind: `update_facts` of app/consumer/service.py.
use give_exit.Prelude.{◌≡◌, ◌⊎◌, String, Bool, true, Option, some}
use give_exit.Prelude.Dict.{Dict, lookup}
use give_exit.Store.Defs.{Payload, CaseRecord, CaseStore}
use give_exit.Evidence.Defs.{with_evidence}
use give_exit.Evidence.Facts.{FactModel, Update, updated, is_given}
use give_exit.Evidence.Facts.Sources.{Printing, settlement_inputs}
use give_exit.Evidence.Facts.Backed.{Validates, IsBacked, IsSettled}

module _ (p : Payload) (m : FactModel p.Facts) (laws : Validates m) where
  -- A notice, or a confirmation that this update does not give, is of the same facts.
  abbrev pub IsFresh :
      Option Bool → CaseRecord (with_evidence p) → CaseRecord (with_evidence p) → Type 0
  IsFresh confirmed r r' =
      (is_given r'.notice ≡ true → r'.facts ≡ r.facts)
      × (r'.facts_confirmed ≡ true → (confirmed ≡ some true) ⊎ (r'.facts ≡ r.facts))

  abbrev pub IsUpdated :
      Option Bool → CaseRecord (with_evidence p) → Update (CaseRecord (with_evidence p)) → Type 0
  IsUpdated confirmed r (updated r') =
      IsBacked p m laws r'
      × ((pr : Printing) → IsSettled p m laws pr r' (settlement_inputs p m pr r'))
      × IsFresh confirmed r r'
  IsUpdated confirmed r u = Unit

  -- An update of the store, or none at all.
  abbrev pub IsStored :
      String
      → CaseStore (with_evidence p)
      → CaseStore (with_evidence p) × Update (CaseRecord (with_evidence p))
      → Type 0
  IsStored case_id s (s', updated r') = lookup case_id s'.cases ≡ some r'
  IsStored case_id s (s', u) = s' ≡ s
