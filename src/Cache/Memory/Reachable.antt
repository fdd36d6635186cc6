-- ===== src/Cache/Memory/Reachable.antt =====
-- The in-process cache as a client.
use contract_agent_capstone.Prelude.{ℕ, ◌≡◌, refl, ap, some, arith}
use contract_agent_capstone.Prelude.Dict.{lookup, insert, lookup-insert}
use contract_agent_capstone.Prelude.Text.{Text, text_eq}
use contract_agent_capstone.Exec.{Result, ok}
use contract_agent_capstone.Cache.Client.{number, Exception, Client, counted, IsReachable}
use contract_agent_capstone.Cache.Memory
use contract_agent_capstone.Cache.Memory.{Store, as_int, add_to}

abbrev pub memory_client : Client
memory_client = record {
  State = Store;
  get = Memory.get;
  set = λ k v s. (ok tt, (Memory.set k v s).1);
  incr = λ k s. Memory.incr k 1 s;
}

pub memory-incr :
    (k : Text) (s : Store) (n : ℕ)
    → counted (lookup k s) ≡ some n
    → Memory.incr k 1 s ≡ (ok n, insert k (number n) s)
memory-incr k s n h = ground (arith, h)

-- Reads see the last write of their key, and a counter goes up by one from what was there or 0.
unfoldable pub memory-IsReachable : IsReachable memory_client
memory-IsReachable = record {
  read = λ s k. lookup k s;
  get_lem = λ k s. refl;
  set_ok = λ k v s. refl;
  read-set = λ k j v s. lookup-insert k j v s;
  incr_ok = λ k s n h. ap (λ (p : Result Exception ℕ × Store). p.0) (memory-incr k s n h);
  read-incr = λ k j s n h. rw (memory-incr k s n h) (lookup-insert k j (number n) s);
}
