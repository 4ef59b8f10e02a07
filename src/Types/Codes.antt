-- ===== src/Types/Codes.antt =====
-- Two states with the same value are the same state.
use bbserver.Base.{◌≡◌, refl, ap, true, some, List, [], ◌∷◌, ==_iff, ==_refl, get_elem?}
use bbserver.Types.{
  SyncState, sync_null, sync_disconnect, sync_idle, sync_m_precommit_multicasted,
  sync_m_precommited, sync_m_precommit_unsuccess, sync_m_commited, sync_m_operation_performed,
  sync_m_operation_unsuccess, sync_s_precommit_received, sync_s_precommit_ack, sync_s_commited,
  sync_s_undo, sync_u_waiting_commit, sync_u_waiting_save, sync_u_saving, sync_u_saved, sync_max,
  sync_code, is_state,
}

abbrev all_states : List SyncState
all_states =
    sync_null ∷ sync_disconnect ∷ sync_idle ∷ sync_m_precommit_multicasted ∷ sync_m_precommited
    ∷ sync_m_precommit_unsuccess ∷ sync_m_commited ∷ sync_m_operation_performed
    ∷ sync_m_operation_unsuccess ∷ sync_s_precommit_received ∷ sync_s_precommit_ack
    ∷ sync_s_commited ∷ sync_s_undo ∷ sync_u_waiting_commit ∷ sync_u_waiting_save ∷ sync_u_saving
    ∷ sync_u_saved ∷ sync_max ∷ []

get_elem?-sync_code : (s : SyncState) → get_elem? all_states (sync_code s) ≡ some s
get_elem?-sync_code sync_null = refl
get_elem?-sync_code _ = refl

pub is_state→eq : (a b : SyncState) → is_state a b ≡ true → a ≡ b
is_state→eq a b h =
    let e : sync_code a ≡ sync_code b = (==_iff (sync_code a) (sync_code b)).0 h in
    cc (get_elem?-sync_code a, get_elem?-sync_code b, ap (get_elem? all_states) e)

pub is_state_refl : (a : SyncState) → is_state a a ≡ true
is_state_refl a = ==_refl (sync_code a)
