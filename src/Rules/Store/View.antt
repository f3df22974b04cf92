-- ===== src/Rules/Store/View.antt =====
-- What the rule store shows: the content of the current snapshot and of the rollback slot.
use shinken_sentinel.Prelude.{ℕ, ◌+◌, List, Option, none, some}
use shinken_sentinel.Rules.Types.{Rule}
use shinken_sentinel.Rules.Rate.{u64}
use shinken_sentinel.Rules.Snapshot.{Snapshot}
use shinken_sentinel.Rules.Store.{Heap, Store}

pub record Content : Type 0 where
  pub rules : List Rule
  pub version : ℕ
  pub policy : ℕ

abbrev pub content : Option Snapshot → Option Content
content none = none
content (some snap) =
    some (record { rules = snap.rules; version = snap.version; policy = snap.default_policy })

unfoldable pub shown : Heap → Option ℕ → Option Content
shown cells none = none
shown cells (some p) = content (cells p)

pub record View : Type 0 where
  pub now : Option Content
  pub previous : Option Content

abbrev pub view : Store → View
view s = record { now = shown s.cells s.current; previous = shown s.cells s.rollback }

-- The specification of a publication: the version goes up by one, in 64 bits, and what was shown is
-- kept for a rollback.
abbrev pub published_view : List Rule → ℕ → Content → View
published_view rules policy old = record {
  now = some (record { rules = rules; version = u64 (old.version + 1); policy = policy });
  previous = some old;
}

-- The specification of a rollback: the previous content under a new version, and no way further back.
abbrev pub rolled_back : Content → Content → View
rolled_back old slot = record {
  now = some (record { rules = slot.rules; version = u64 (old.version + 1); policy = slot.policy });
  previous = none;
}
