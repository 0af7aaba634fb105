-- ===== src/Fixture/Log/Poll.antt =====
-- A poll of the runner against the history of the fixture: each event is handed on exactly once.
use local_peer_connections.Prelude.{ℕ, suc, ◌+◌, String, ◌≡◌, List, [], ◌∷◌, ◌++◌, length, arith}
use local_peer_connections.Python.Value.{Fields}
use local_peer_connections.Fixture.Log.{Log, event, log_event}
use local_peer_connections.Fixture.Log.Order.{Lacks, Chain}

-- One call of `_record`.
pub record Entry : Type 0 where
  pub at_ms : ℕ
  pub type : String
  pub details : Fields

abbrev pub log_entry : Entry → Log → Log
log_entry x = log_event x.at_ms x.type x.details

abbrev pub log_all : List Entry → Log → Log
log_all [] log = log
log_all (x ∷ xs) log = log_all xs (log_entry x log)

-- The events that the calls record, numbered from the number after `n` on.
abbrev pub numbered : ℕ → List Entry → List Fields
numbered n [] = []
numbered n (x ∷ xs) = event (suc n) x.at_ms x.type x.details ∷ numbered (suc n) xs

abbrev pub AllLack : List Entry → Type 0
AllLack [] = Unit
AllLack (x ∷ xs) = Lacks "sequence" x.details × AllLack xs

-- The history holds some events from before number `c`, and all from after it.
pub record Since (c : ℕ) (new : List Fields) (log : Log) : Type 0 where
  pub first : ℕ
  pub old : List Fields
  pub split : log.events ≡ old ++ new
  pub old_chain : Chain first old
  pub new_chain : Chain c new
  pub meets : first + length old ≡ c
  pub counts : c + length new ≡ log.event_sequence

pub length-append : (xs ys : List Fields) → length (xs ++ ys) ≡ length xs + length ys
length-append [] ys = omega arith
length-append (x ∷ xs) ys = omega (arith, length-append xs ys)

-- A history in which nothing has been overwritten, and that the runner has read to its end.
abbrev pub IsRead : Log → Type 0
IsRead log = Since log.event_sequence [] log
