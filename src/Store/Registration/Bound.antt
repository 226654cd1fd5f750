-- ===== src/Store/Registration/Bound.antt =====
-- Which task a registration gives.
use adg_lang.Common.{
  ℕ, ◌≡◌, refl, arith, Bool, true, false, not, ◌&&◌, Option, none, some, ok, String, str_eq, eq_iff,
  ==_iff, ◌==◌,
}
use adg_lang.Js.{Value}
use adg_lang.Js.Text.{stringify}
use adg_lang.Store.Tables.{Task}
use adg_lang.Store.Calls.{World, query, pure, batch}
use adg_lang.Store.Gives.{Gives, Gives-pure, Gives-bind, Gives-throw_when}
use adg_lang.Store.Transition.{get_consensus_task}
use adg_lang.Store.Registration.{
  Packet, task_version_id, consensus_task_matches, found_matches, task_conflict,
  assert_consensus_task_registration, ensure_consensus_task, prepare_consensus_task_registration,
}

all_true :
    (a b c d e f g h i : Bool)
    → (a && b && c && d && e && f && g && h && i) ≡ true
    → (a ≡ true)
      × (b ≡ true)
      × (c ≡ true)
      × (d ≡ true)
      × (e ≡ true)
      × (f ≡ true)
      × (g ≡ true)
      × (h ≡ true)
      × (i ≡ true)
all_true true true true true true true true true true p =
    (refl, refl, refl, refl, refl, refl, refl, refl, refl)
all_true a b c d e f g h i p = cc

-- The task is bound to the packet, its root and its metric policy.
pub record IsBound (parse_json : String → Value) (packet : Packet) (root : String) (t : Task)
    : Type 0 where
  pub task_id : t.task_id ≡ packet.task_id
  pub task_version : t.task_version ≡ packet.task_version
  pub packet_id : t.packet_id ≡ packet.packet_id
  pub holdout_id : t.holdout_id ≡ packet.holdout_id
  pub merkle_root : t.packet_merkle_root ≡ root
  pub guideline_version : t.guideline_version ≡ packet.guideline_version
  pub data_version : t.data_version ≡ packet.data_version
  pub protocol_version : t.protocol_version ≡ packet.protocol_version
  pub policy : stringify (parse_json t.metric_policy_json) ≡ stringify packet.metric_policy

matches-IsBound :
    (parse_json : String → Value) (packet : Packet) (root : String) (t : Task)
    → consensus_task_matches parse_json packet root t ≡ true
    → IsBound parse_json packet root t
unfolding consensus_task_matches
matches-IsBound parse_json packet root t h =
    let (h₁, h₂, h₃, h₄, h₅, h₆, h₇, h₈, h₉) =
      all_true (str_eq t.task_id packet.task_id) (t.task_version == packet.task_version)
        (str_eq t.packet_id packet.packet_id) (str_eq t.holdout_id packet.holdout_id)
        (str_eq t.packet_merkle_root root) (str_eq t.guideline_version packet.guideline_version)
        (str_eq t.data_version packet.data_version)
        (str_eq t.protocol_version packet.protocol_version)
        (str_eq (stringify (parse_json t.metric_policy_json)) (stringify packet.metric_policy)) h in
    record {
      task_id = (eq_iff _ _).0 h₁;
      task_version = (==_iff _ _).0 h₂;
      packet_id = (eq_iff _ _).0 h₃;
      holdout_id = (eq_iff _ _).0 h₄;
      merkle_root = (eq_iff _ _).0 h₅;
      guideline_version = (eq_iff _ _).0 h₆;
      data_version = (eq_iff _ _).0 h₇;
      protocol_version = (eq_iff _ _).0 h₈;
      policy = (eq_iff _ _).0 h₉;
    }

module _ (digest : String → String) (parse_json : String → Value) where
  abbrev pub IsBoundRow : Packet → String → Option Task → Type 0
  IsBoundRow packet root row = (t : Task) × (row ≡ some t) × IsBound parse_json packet root t

  bound_row :
      (packet : Packet) (root : String) (row : Option Task)
      → not (found_matches parse_json packet root row) ≡ false
      → IsBoundRow packet root row
  bound_row packet root none h = cc
  bound_row packet root (some t) h =
      (t, refl, matches-IsBound parse_json packet root t (ground arith))

  Gives-assert :
      (packet : Packet) (root : String)
      → Gives
          (IsBoundRow packet root)
          (assert_consensus_task_registration digest parse_json packet root)
  unfolding assert_consensus_task_registration
  Gives-assert packet root =
      Gives-bind (query (get_consensus_task (task_version_id packet))) _ λ row.
        Gives-throw_when (not (found_matches parse_json packet root row)) task_conflict (pure row)
          λ ok_row. Gives-pure row (bound_row packet root row ok_row)

  -- Whatever other requests do in between, a registration that does not throw gives a task, and
  -- this task has the packet's identity, root, versions and metric policy.
  pub ensure_consensus_task-IsBoundRow :
      (packet : Packet) (root : String) (now : ℕ) (w : World) (row : Option Task)
      → (ensure_consensus_task digest parse_json packet root now w).0 ≡ ok row
      → IsBoundRow packet root row
  unfolding ensure_consensus_task
  ensure_consensus_task-IsBoundRow packet root now w row e =
      (Gives-bind (prepare_consensus_task_registration digest parse_json packet root now) _
          (λ statements. Gives-bind (batch statements) _ λ _. Gives-assert packet root)).value
        w row e
