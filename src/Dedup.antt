-- ===== src/Dedup.antt =====
-- src/dedup.rs: jobs in flight, and the callers that wait for the result of an equal one. A waiter is
-- the number of its channel, and `repr` gives the bytes of the derived `Debug` text of a job.
pub mod Laws
pub mod Entries
pub mod Links
use helix_router_adaptive_as.Common.{
  ℕ, zero, suc, ◌+◌, ◌-◌, ◌/◌, ◌%◌, bit_xor, Bool, true, false, List, [], ◌∷◌, ◌++◌, Option, none,
  some, ltb, length, map, retain, nat_key,
}
use helix_router_adaptive_as.Common.Maps.{Map, get, insert, delete}
use helix_router_adaptive_as.Words.{add_u64, wrapping_mul}
use helix_router_adaptive_as.Floats.{Floats}
use helix_router_adaptive_as.Types.{Job}
use helix_router_adaptive_as.ResultCache.{kind_bytes}

unfoldable pub fnv_bytes : ℕ → List ℕ → ℕ
fnv_bytes hash [] = hash
fnv_bytes hash (byte ∷ bytes) = fnv_bytes (wrapping_mul (bit_xor hash byte) 1_099_511_628_211) bytes

unfoldable pub fnv1a : List ℕ → ℕ
fnv1a bytes = fnv_bytes 14_695_981_039_346_656_037 bytes

-- The `n` lowest decimal digits of a number as bytes, before those of `rest`; leading zeros are left
-- out, as `u64::to_string` does, whose numbers have at most 20 digits.
unfoldable pub decimal : ℕ → ℕ → List ℕ → List ℕ
decimal zero v rest = rest
decimal (suc n) zero rest = rest
decimal (suc n) (suc v) rest = decimal n (suc v / 10) ((48 + suc v % 10) ∷ rest)

abbrev pub to_string : ℕ → List ℕ
to_string zero = 48 ∷ []
to_string (suc v) = decimal 20 (suc v) []

-- `DedupKey::for_job`
unfoldable pub for_job : {fl : Floats} → (Job fl → List ℕ) → Job fl → ℕ
for_job repr job = fnv1a (kind_bytes job.kind ++ to_string (fnv1a (repr job)))

pub record DedupeEntry : Type 0 where
  pub original_job_id : ℕ
  pub submitted_at : ℕ
  pub waiters : List ℕ

pub record JobDeduplicator : Type 0 where
  pub entries : Map ℕ DedupeEntry
  pub id_to_key : Map ℕ ℕ
  pub ttl : ℕ
  pub total_submitted : ℕ
  pub deduped_count : ℕ

-- A job to execute, or the identifier of the one to wait for.
pub data DedupDecision : Type 0 where
  fresh : DedupDecision
  duplicate : (original_id : ℕ) → DedupDecision

abbrev pub new_deduplicator : ℕ → JobDeduplicator
new_deduplicator ttl = record {
  entries = [];
  id_to_key = [];
  ttl = ttl;
  total_submitted = 0;
  deduped_count = 0;
}

abbrev pub is_expired : JobDeduplicator → ℕ → DedupeEntry → Bool
is_expired d now e = ltb d.ttl (now - e.submitted_at)

abbrev pub expired_keys : JobDeduplicator → ℕ → List ℕ
expired_keys d now = map (λ e. e.0) (retain (λ e. is_expired d now e.1) d.entries)

-- The entry of a key and the key of its job are taken out.
abbrev pub drop_entry : JobDeduplicator → ℕ → Option DedupeEntry → JobDeduplicator
drop_entry d key none = d
drop_entry d key (some e) = record d {
  entries = delete key d.entries;
  id_to_key = delete e.original_job_id d.id_to_key;
}

unfoldable pub drop_all : List ℕ → JobDeduplicator → JobDeduplicator
drop_all [] d = d
drop_all (key ∷ keys) d = drop_all keys (drop_entry d key (get key d.entries))

unfoldable pub evict_expired : JobDeduplicator → ℕ → JobDeduplicator
evict_expired d now = drop_all (expired_keys d now) d

abbrev pub counted : JobDeduplicator → JobDeduplicator
counted d = record d { total_submitted = add_u64 d.total_submitted 1 }

-- `tx` is the channel of this call, used if it has to wait.
abbrev pub join_or_add :
    JobDeduplicator → ℕ → ℕ → ℕ → ℕ → Option DedupeEntry → JobDeduplicator × DedupDecision
join_or_add d key job_id now tx (some e) = (
  record d {
    entries = insert key (record e { waiters = e.waiters ++ (tx ∷ []) }) d.entries;
    deduped_count = add_u64 d.deduped_count 1;
  },
  duplicate e.original_job_id,
)
join_or_add d key job_id now tx none = (
  record d {
    entries =
        insert key (record { original_job_id = job_id; submitted_at = now; waiters = [] })
          d.entries;
    id_to_key = insert job_id key d.id_to_key;
  },
  fresh,
)

unfoldable pub submit_key : JobDeduplicator → ℕ → ℕ → ℕ → ℕ → JobDeduplicator × DedupDecision
submit_key d key job_id now tx =
    let c = counted (evict_expired d now) in join_or_add c key job_id now tx (get key c.entries)

unfoldable pub submit :
    {fl : Floats}
    → (Job fl → List ℕ)
    → JobDeduplicator
    → Job fl
    → ℕ
    → ℕ
    → JobDeduplicator × DedupDecision
submit repr d job now tx = submit_key d (for_job repr job) job.id now tx

-- The channels that get the result
abbrev pub deliver : JobDeduplicator → ℕ → Option DedupeEntry → JobDeduplicator × List ℕ
deliver d key none = (d, [])
deliver d key (some e) = (record d { entries = delete key d.entries }, e.waiters)

abbrev pub complete_key : JobDeduplicator → ℕ → Option ℕ → JobDeduplicator × List ℕ
complete_key d job_id none = (d, [])
complete_key d job_id (some key) =
    deliver (record d { id_to_key = delete job_id d.id_to_key }) key (get key d.entries)

unfoldable pub complete : JobDeduplicator → ℕ → JobDeduplicator × List ℕ
complete d job_id = complete_key d job_id (get job_id d.id_to_key)
