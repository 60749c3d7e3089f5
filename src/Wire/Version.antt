-- ===== src/Wire/Version.antt =====
-- src/wire/mod.rs: what a peer of a version of the schema takes.
use uniproc_windows_agent.Base.{
  ℕ, Bool, true, false, negb, Option, none, some, leb, ltb, ◌==◌, ◌&&◌, ◌||◌, nat_beq,
  if◌then◌else◌, ◌≡◌, ◌≢◌, refl, ap, ◌∙◌, arith,
}
use uniproc_windows_agent.Sample.Metrics.{EnumSet, MachineMetric, ProcessMetric, Sets}
use uniproc_windows_agent.Sample.{MetricSpec}

-- `ogurpchik::auth::handshake::Version`, as far as it is read.
pub record Version : Type 0 where
  pub major : ℕ
  pub minor : ℕ

-- `(v.major, v.minor) >= (major, minor)`
abbrev pub at_least : Version → ℕ → ℕ → Bool
at_least v major minor = ltb major v.major || (v.major == major && leb minor v.minor)

unfoldable pub takes_gaps : Option Version → Bool
takes_gaps none = false
takes_gaps (some v) = at_least v 2 1

unfoldable pub takes_watch : Version → Bool
takes_watch agent = at_least agent 2 2

unfoldable pub takes_process_events : Version → Bool
takes_process_events agent = at_least agent 2 8

unfoldable pub takes_temperatures : Version → Bool
takes_temperatures agent = at_least agent 2 11

unfoldable pub takes_vm_working_set : Version → Bool
takes_vm_working_set agent = at_least agent 2 13

module _ {S : Sets} where
  abbrev without_process : ProcessMetric → MetricSpec S → MetricSpec S
  without_process m spec = record spec { processes = S.process.remove spec.processes m }

  abbrev without_machine : MachineMetric → MetricSpec S → MetricSpec S
  without_machine m spec = record spec { machine = S.machine.remove spec.machine m }

  -- `known_to`, with what it asks of the version.
  unfoldable pub known_with : (vm heat mapped : Bool) → MetricSpec S → MetricSpec S
  known_with vm heat mapped spec =
      let a = if negb vm then without_process ProcessMetric.vm_working_set spec else spec in
      let b = if negb heat then without_machine MachineMetric.temperatures a else a in
      if negb mapped then without_process ProcessMetric.exclusive_mapped b else b

  unfoldable pub known_to : Version → MetricSpec S → MetricSpec S
  known_to agent spec =
      known_with (takes_vm_working_set agent) (takes_temperatures agent) (at_least agent 2 6) spec

module _ {E : Type 0} (S : EnumSet E) where
  -- `m` is taken out of a set where the agent has no name for it.
  abbrev trim : Bool → E → S.Carrier → S.Carrier
  trim unnamed m s = if unnamed then S.remove s m else s

  contains-trim_self :
      (unnamed : Bool) (m : E) (s : S.Carrier)
      → S.contains (trim unnamed m s) m ≡ (S.contains s m && negb unnamed)
  contains-trim_self true m s = ground (arith, S.contains-remove_self s m)
  contains-trim_self false m s = ground arith

  contains-trim :
      (unnamed : Bool) (m k : E) (s : S.Carrier)
      → k ≢ m
      → S.contains (trim unnamed m s) k ≡ S.contains s k
  contains-trim true m k s other = S.contains-remove s m k other
  contains-trim false m k s other = refl

module _ {S : Sets} (spec : MetricSpec S) where
  known_processes :
      (vm heat mapped : Bool)
      → (known_with vm heat mapped spec).processes
        ≡ trim S.process
            (negb mapped)
            ProcessMetric.exclusive_mapped
            (trim S.process (negb vm) ProcessMetric.vm_working_set spec.processes)
  unfolding known_with
  known_processes true true true = refl
  known_processes true true false = refl
  known_processes true false true = refl
  known_processes true false false = refl
  known_processes false true true = refl
  known_processes false true false = refl
  known_processes false false true = refl
  known_processes false false false = refl

  known_machine :
      (vm heat mapped : Bool)
      → (known_with vm heat mapped spec).machine
        ≡ trim S.machine (negb heat) MachineMetric.temperatures spec.machine
  unfolding known_with
  known_machine true true true = refl
  known_machine true true false = refl
  known_machine true false true = refl
  known_machine true false false = refl
  known_machine false true true = refl
  known_machine false true false = refl
  known_machine false false true = refl
  known_machine false false false = refl

vm_not_exclusive : ProcessMetric.vm_working_set ≢ ProcessMetric.exclusive_mapped
vm_not_exclusive e = absurd (ground (arith, e))

exclusive_not_vm : ProcessMetric.exclusive_mapped ≢ ProcessMetric.vm_working_set
exclusive_not_vm e = absurd (ground (arith, e))

-- What a subscriber asks of an agent, as the agent knows it: the working set of virtual machines is
-- left out before 2.13, the exclusively mapped memory before 2.6 and the temperatures before 2.11,
-- and every other counter is asked for as before.
pub known_to_exact :
    {S : Sets} (agent : Version) (spec : MetricSpec S)
    → let known = known_to agent spec in
      let has = S.process.contains spec.processes in
      let vm = ProcessMetric.vm_working_set in
      let mapped = ProcessMetric.exclusive_mapped in
      let heat = MachineMetric.temperatures in
      (S.process.contains known.processes vm ≡ (has vm && at_least agent 2 13))
      × (S.process.contains known.processes mapped ≡ (has mapped && at_least agent 2 6))
      × (S.machine.contains known.machine heat
          ≡ (S.machine.contains spec.machine heat && at_least agent 2 11))
      × ((m : ProcessMetric) → m ≢ vm → m ≢ mapped → S.process.contains known.processes m ≡ has m)
      × ((m : MachineMetric)
          → m ≢ heat
          → S.machine.contains known.machine m ≡ S.machine.contains spec.machine m)
unfolding known_to takes_vm_working_set takes_temperatures
known_to_exact {S} agent spec =
    let a = takes_vm_working_set agent in
    let b = takes_temperatures agent in
    let c = at_least agent 2 6 in
    let vm = ProcessMetric.vm_working_set in
    let mapped = ProcessMetric.exclusive_mapped in
    let heat = MachineMetric.temperatures in
    let first = trim S.process (negb a) vm spec.processes in
    let processes = ap S.process.contains (known_processes spec a b c) in
    let machine = ap S.machine.contains (known_machine spec a b c) in
    let twice : (x y : Bool) → (x && negb (negb y)) ≡ (x && y) = λ x y. ground arith in
    (
      ap (λ f. f vm) processes
          ∙ contains-trim S.process (negb c) mapped vm first vm_not_exclusive
          ∙ contains-trim_self S.process (negb a) vm spec.processes
          ∙ twice (S.process.contains spec.processes vm) a,
      ap (λ f. f mapped) processes
          ∙ contains-trim_self S.process (negb c) mapped first
          ∙ ap (λ x. x && negb (negb c))
              (contains-trim S.process (negb a) vm mapped spec.processes exclusive_not_vm)
          ∙ twice (S.process.contains spec.processes mapped) c,
      ap (λ f. f heat) machine
          ∙ contains-trim_self S.machine (negb b) heat spec.machine
          ∙ twice (S.machine.contains spec.machine heat) b,
      λ m other different.
          ap (λ f. f m) processes
          ∙ contains-trim S.process (negb c) mapped m first different
          ∙ contains-trim S.process (negb a) vm m spec.processes other,
      λ m other. ap (λ f. f m) machine ∙ contains-trim S.machine (negb b) heat m spec.machine other,
    )
