-- ===== src/Suppression/Tests.antt =====
-- Suppressions on a concrete run, and instances of the theorems.
use aegis_nexus.Common.{
  ℕ, ◌+◌, ◌≤◌, ◌<◌, true, false, some, [], ◌∷◌, ◌++◌, ◌≡◌, ◌⊎◌, refl, String, string_eq, is_none,
}
use aegis_nexus.Common.Order.{order_by, insert_by}
use aegis_nexus.Suppression.{
  Library, Suppression, Tables, Request, ok, is_rule, clean_source, check_expiry, validate, create,
  delete, match_finding, list_suppressions, is_global, max_suppression,
}
use aegis_nexus.Suppression.InForce.{IsIn, Silences, match_finding_iff, create-match_finding}
use aegis_nexus.Suppression.Trail.{IsTraced, creating, deleting, perform_all, perform_all-IsTraced}

program : Unit {0}
unfolding order_by insert_by is_rule clean_source check_expiry validate create delete match_finding
    list_suppressions
program = tt

abbrev plain : Library
plain = record {
  strip = λ text. text;
  len = λ text. 5;
  slice = λ n text. text;
  ip_address = λ text. some text;
  parse_utc = λ text. some (some 500);
}

abbrev request : Request
request = record {
  rule_id = "web_scanning";
  owner = "ops";
  reason = "scanner of ours";
  expires_at = "soon";
  source_ip = "10.0.0.5";
  actor = "";
}

abbrev empty : Tables
empty = record { suppressions = []; audit = []; last_audit = 0 }

abbrev one : Tables
one = perform_all plain (creating request "supp_1" 100 ∷ []) empty

created_one : create plain request "supp_1" 100 empty ≡ ok one
unfolding program
created_one = refl

silenced_until_expiry :
    (is_none (match_finding "web_scanning" "10.0.0.5" 499 one) ≡ false)
    × (is_none (match_finding "web_scanning" "10.0.0.5" 500 one) ≡ true)
    × (is_none (match_finding "web_scanning" "10.0.0.6" 499 one) ≡ true)
unfolding program
silenced_until_expiry = (refl, refl, refl)

match_finding_iff_example :
    ((s : Suppression)
      → IsIn s one.suppressions
      → Silences "web_scanning" "10.0.0.5" 499 s
      → is_none (match_finding "web_scanning" "10.0.0.5" 499 one) ≡ false)
    × ((s : Suppression)
        → match_finding "web_scanning" "10.0.0.5" 499 one ≡ some s
        → IsIn s one.suppressions × Silences "web_scanning" "10.0.0.5" 499 s)
unfolding program
match_finding_iff_example = match_finding_iff "web_scanning" "10.0.0.5" 499 one refl

create-match_finding_example :
    (s : Suppression) × (one.suppressions ≡ empty.suppressions ++ s ∷ [])
    × (100 < s.expires_at)
    × (s.expires_at ≤ 100 + max_suppression)
    × ((source_ip : String) (later : ℕ)
        → later < s.expires_at
        → (is_global s ≡ true) ⊎ (s.source_ip ≡ some source_ip)
        → is_none (match_finding s.rule_id source_ip later one) ≡ false)
unfolding program
create-match_finding_example = create-match_finding plain request "supp_1" 100 empty one created_one

perform_all-IsTraced_example : IsTraced (
    perform_all plain
      (creating request "supp_1" 100
        ∷ creating request "supp_2" 110
        ∷ deleting "supp_1" "ops" 120
        ∷ [])
      empty)
unfolding program
perform_all-IsTraced_example =
    perform_all-IsTraced plain
      (creating request "supp_1" 100
        ∷ creating request "supp_2" 110
        ∷ deleting "supp_1" "ops" 120
        ∷ [])
      empty tt
