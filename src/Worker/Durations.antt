-- ===== src/Worker/Durations.antt =====
-- worker.cpp, executeTaskInternal: how long a task sleeps, and what its result begins with.
use my_taskflow_system.Common.{
  false, ℕ, zero, suc, ◌≡◌, refl, ◌⊎◌, ◌++◌, codes, Bool-cases, inl, inr, Text, arith,
}
use my_taskflow_system.Common.Int.{eq_ℤ, ℤ, pos, negsuc, leb_ℤ, ◌≤ℤ◌}
use my_taskflow_system.Worker.{
  Work, Rolls, min_ℤ, simulate_order_dispatch, simulate_personnel_schedule, simulate_message_notify,
  simulate_data_stats, simulate_generic_task, execute_task_internal,
}

-- The seconds that a task of each type takes at the most; of any other type, 3.
abbrev pub usual : ℤ → ℕ
usual (pos zero) = 5
usual (pos (suc zero)) = 8
usual (pos (suc (suc zero))) = 2
usual (pos (suc (suc (suc zero)))) = 10
usual (pos (suc (suc (suc (suc n))))) = 3
usual (negsuc n) = 3

-- The lesser of two numbers: below both, and one of them.
abbrev pub IsLesser : ℤ → ℤ → ℤ → Type 0
IsLesser a b c = (c ≤ℤ a) × (c ≤ℤ b) × ((c ≡ a) ⊎ (c ≡ b))

-- The beginning of the text that a task of each type results in.
abbrev pub opening : ℤ → Text
opening (pos zero) = codes "Order dispatched successfully. Order: "
opening (pos (suc zero)) = codes "Personnel scheduling completed. Personnel: "
opening (pos (suc (suc zero))) = codes "Message notification sent. Recipients: "
opening (pos (suc (suc (suc zero)))) = codes "Data statistics completed. Period: "
opening (pos (suc (suc (suc (suc n))))) = codes "Task completed. Processed data: "
opening (negsuc n) = codes "Task completed. Processed data: "

abbrev pub BeginsWith : Text → Text → Type 0
BeginsWith front s = (rest : Text) × (s ≡ front ++ rest)

min_ℤ-IsLesser : (a b : ℤ) → IsLesser a b (min_ℤ a b)
min_ℤ-IsLesser a b = elim (Bool-cases (leb_ℤ a b)) [
  | inl e ↦ rw e (omega arith, ground arith, inl refl)
  | inr e ↦ rw e (ground arith, omega arith, inr refl)
]

-- A number that the switch has no case for.
record IsOther (t : ℤ) : Type 0 where
  no_order : eq_ℤ t (pos 0) ≡ false
  no_personnel : eq_ℤ t (pos 1) ≡ false
  no_message : eq_ℤ t (pos 2) ≡ false
  no_stats : eq_ℤ t (pos 3) ≡ false

execute_task_internal-other :
    (rolls : Rolls) (t : ℤ) (payload : Text) (timeout : ℤ)
    → IsOther t
    → execute_task_internal rolls t payload timeout ≡ simulate_generic_task payload timeout
unfolding execute_task_internal
execute_task_internal-other rolls t payload timeout h =
    rw (h.no_order, h.no_personnel, h.no_message, h.no_stats) refl

generic-IsLesser :
    (work : Work) (payload : Text) (timeout : ℤ)
    → work ≡ simulate_generic_task payload timeout
    → IsLesser timeout (pos 3) work.duration
      × BeginsWith (codes "Task completed. Processed data: ") work.output
unfolding simulate_generic_task
generic-IsLesser work payload timeout e = rw e (min_ℤ-IsLesser timeout (pos 3), (payload, refl))

-- A task sleeps for its timeout or for the usual time of its type, whichever is less: 5 seconds for
-- an order, 8 for personnel, 2 for a message, 10 for statistics, 3 for any other type; and its
-- result begins with the words for its type.
pub execute_task_internal-IsLesser :
    (rolls : Rolls) (task_type : ℤ) (payload : Text) (timeout : ℤ)
    → let work = execute_task_internal rolls task_type payload timeout in
      IsLesser timeout (pos (usual task_type)) work.duration
      × BeginsWith (opening task_type) work.output
unfolding execute_task_internal simulate_order_dispatch simulate_personnel_schedule
    simulate_message_notify simulate_data_stats simulate_generic_task
execute_task_internal-IsLesser rolls (pos zero) payload timeout =
    (min_ℤ-IsLesser timeout (pos 5), (_, refl))
execute_task_internal-IsLesser rolls (pos (suc zero)) payload timeout =
    (min_ℤ-IsLesser timeout (pos 8), (_, refl))
execute_task_internal-IsLesser rolls (pos (suc (suc zero))) payload timeout =
    (min_ℤ-IsLesser timeout (pos 2), (_, refl))
execute_task_internal-IsLesser rolls (pos (suc (suc (suc zero)))) payload timeout =
    (min_ℤ-IsLesser timeout (pos 10), (_, refl))
execute_task_internal-IsLesser rolls (pos (suc (suc (suc (suc n))))) payload timeout =
    generic-IsLesser _ payload timeout (
      execute_task_internal-other rolls (pos (suc (suc (suc (suc n))))) payload timeout (record {
        no_order = ground arith;
        no_personnel = ground arith;
        no_message = ground arith;
        no_stats = ground arith;
      }))
execute_task_internal-IsLesser rolls (negsuc n) payload timeout =
    generic-IsLesser _ payload timeout (
      execute_task_internal-other rolls (negsuc n) payload timeout (record {
        no_order = ground arith;
        no_personnel = ground arith;
        no_message = ground arith;
        no_stats = ground arith;
      }))
