-- ===== src/Preflight/Report/Laws.antt =====
-- When a preflight report is blocked, and what is said of it.
use qa_agent.Prelude.{
  String, ◌<>◌, ◌≡◌, inl, inr, Bool-cases, refl, sym, ap, ◌∙◌, Bool, true, false, not, ◌&&◌, List,
  [], ◌∷◌, map, all, any, select, join, if◌then◌else◌, arith,
}
use qa_agent.Preflight.Report.{
  CheckName, check_names, is_blocking, is_task_id, CheckItem, Checks, ReportStatus, PreflightReport,
  is_ok, is_blocking_checks_ok, status_for_check, build_check_item, build_preflight_report,
  has_failed, describe_preflight_blocked_message,
}

-- A check stands in the way of the run.
abbrev fails : Checks → CheckName → Bool
fails c name =
    is_blocking name
    && not (if is_task_id name && c.task_id_check.skipped then true else is_ok c name)

has_failed-build :
    (c : Checks) (name : CheckName) → has_failed (build_check_item c name) ≡ fails c name
unfolding build_check_item status_for_check
has_failed-build c name = ground arith

module _ {A B : Type 0} (f : B → Bool) (g : A → B) where
  any-not-all :
      (b h : A → Bool)
      → ((a : A) → f (g a) ≡ (b a && not (h a)))
      → (xs : List A) → any f (map g xs) ≡ not (all h (select b xs))
  any-not-all b h same [] = refl
  any-not-all b h same (x ∷ xs) = ground (arith, same x, any-not-all b h same xs)

  select-agree :
      (p : B → Bool)
      → ((a : A) → p (g a) ≡ f (g a))
      → (xs : List A) → select p (map g xs) ≡ select f (map g xs)
  select-agree p same [] = refl
  select-agree p same (x ∷ xs) = ground (arith, same x, select-agree p same xs)

any-select :
    {A : Type 0} (p : A → Bool) (xs : List A)
    → any p xs ≡ true
    → (y : A) × (ys : List A) × (select p xs ≡ y ∷ ys)
any-select p [] h = cc
any-select p (x ∷ xs) h = elim (Bool-cases (p x)) [
  | inl e ↦ (x, select p xs, ground (arith, e))
  | inr e ↦ let (y, ys, k) = any-select p xs ground (arith, e, h) in (y, ys, ground (arith, e, k))
]

-- The report that `run` builds.
abbrev pub report_of : Checks → PreflightReport
report_of c = build_preflight_report c (is_blocking_checks_ok c)

abbrev pub is_blocked : PreflightReport → Bool
is_blocked r = elim (r.status) [ ReportStatus.blocked ↦ true | ReportStatus.pass ↦ false ]

pub status-not : (c : Checks) (b : Bool) → is_blocked (build_preflight_report c b) ≡ not b
unfolding build_preflight_report
status-not c true = refl
status-not c false = refl

-- The text for a list of failed items.
abbrev listed : List CheckItem → String
listed [] = "QA bloqueado: vincule a task do ClickUp ao PR."
listed (item ∷ items) = "QA bloqueado: " <> join "; " (map (λ i. i.message) (item ∷ items))

describe-listed :
    (r : PreflightReport)
    → describe_preflight_blocked_message r
      ≡ listed (select (λ item. has_failed item && is_blocking item.name) r.check_items)
unfolding describe_preflight_blocked_message
describe-listed r = go (select (λ item. has_failed item && is_blocking item.name) r.check_items)
  where
    go :
        (items : List CheckItem)
        → (elim items [
          | [] ↦ "QA bloqueado: vincule a task do ClickUp ao PR."
          | item ∷ more ↦ "QA bloqueado: " <> join "; " (map (λ i. i.message) (item ∷ more))
        ])
          ≡ listed items
    go [] = refl
    go (item ∷ items) = refl

failed-is_blocking :
    (c : Checks) (name : CheckName)
    → (has_failed (build_check_item c name) && is_blocking (build_check_item c name).name)
      ≡ has_failed (build_check_item c name)
unfolding build_check_item
failed-is_blocking c name = ground (arith, has_failed-build c name)

-- The report is blocked exactly if one of its items has failed, and then the message on it lists
-- the messages of the failed items, of which there is at least one.
pub report_blocked :
    (c : Checks)
    → (is_blocked (report_of c) ≡ any has_failed (report_of c).check_items)
      × ((report_of c).status ≡ ReportStatus.blocked
          → describe_preflight_blocked_message (report_of c)
            ≡ "QA bloqueado: "
              <> join "; " (map (λ i. i.message) (select has_failed (report_of c).check_items)))
unfolding build_preflight_report is_blocking_checks_ok
report_blocked c =
    (agrees, λ h. lists (any-select has_failed (report_of c).check_items (some_failed h)))
  where
    agrees : is_blocked (report_of c) ≡ any has_failed (report_of c).check_items
    agrees =
        status-not c (is_blocking_checks_ok c)
        ∙ sym (
            any-not-all has_failed (build_check_item c) is_blocking
              (λ name. if is_task_id name && c.task_id_check.skipped then true else is_ok c name)
              (has_failed-build c) check_names)

    some_failed :
        (report_of c).status ≡ ReportStatus.blocked
        → any has_failed (report_of c).check_items ≡ true
    some_failed h = sym agrees ∙ ap (λ r. is_blocked (record (report_of c) { status = r })) h

    lists :
        ((y : CheckItem) × (ys : List CheckItem) × (select has_failed (report_of c).check_items
            ≡ y ∷ ys))
        → describe_preflight_blocked_message (report_of c)
          ≡ "QA bloqueado: "
            <> join "; " (map (λ i. i.message) (select has_failed (report_of c).check_items))
    lists (y, ys, k) =
        describe-listed (report_of c)
        ∙ (ap listed (
              select-agree has_failed (build_check_item c)
                (λ item. has_failed item && is_blocking item.name) (failed-is_blocking c)
                check_names
              ∙ k)
            ∙ sym (
                ap (λ l. "QA bloqueado: " <> join "; " (map {A = CheckItem} (λ i. i.message) l)) k))
