-- ===== src/Wire/RoundTrip/Specs.antt =====
-- src/wire/encode.rs and src/wire/decode.rs: what a subscriber asks for, on its way to the agent.
use uniproc_windows_agent.Base.{
  ◌*◌, ◌/◌, ◌+◌, ◌-◌, ◌≤◌, min, List, [], ◌∷◌, map, some, ◌≡◌, refl, sym, ◌∙◌, arith,
}
use uniproc_windows_agent.Base.Words.{u32_max}
use uniproc_windows_agent.Wire.Outcome.{decoded}
use uniproc_windows_agent.Sample.Metrics.{Sets}
use uniproc_windows_agent.Sample.{MetricSpec, period, milli}
use uniproc_windows_agent.Wire.Encode
use uniproc_windows_agent.Wire.Decode
use uniproc_windows_agent.Wire.RoundTrip.Metrics.{process_metric_sent, machine_metric_sent}

known_sent :
    {A B : Type 0} (send : A → B) (read : B → A)
    → ((a : A) → read (send a) ≡ a)
    → (xs : List A) → Decode.Samples.known read (map (λ a. some (send a)) xs) ≡ xs
unfolding Decode.Samples.known
known_sent send read same [] = refl
known_sent send read same (x ∷ xs) = λ i. same x i ∷ known_sent send read same xs i

-- What the agent hears of a spec: whole milliseconds, at most what the message holds.
abbrev pub heard : {S : Sets} → MetricSpec S → MetricSpec S
heard spec = record spec { interval = min (spec.interval / milli) u32_max * milli }

-- What a subscriber asks for arrives with the same counters, and with its interval in whole
-- milliseconds, at most what a u32 holds of them.
pub metric_spec-heard :
    {S : Sets} (spec : MetricSpec S)
    → Decode.Samples.metric_spec (Encode.Samples.metric_spec spec) ≡ decoded (heard spec)
unfolding Decode.Samples.metric_spec Encode.Samples.metric_spec
metric_spec-heard {S} spec = rw (
  known_sent Encode.Metrics.process_metric Decode.Metrics.process_metric process_metric_sent
      (S.process.members spec.processes),
  known_sent Encode.Metrics.machine_metric Decode.Metrics.machine_metric machine_metric_sent
      (S.machine.members spec.machine),
  S.process.of_members-members spec.processes,
  S.machine.of_members-members spec.machine,
)

heard_period :
    {S : Sets} (spec : MetricSpec S)
    → (period (heard spec) ≤ period spec) × (period spec ≤ period (heard spec) + (milli - 1))
unfolding period
heard_period spec = (ground arith, ground arith)

decoded_same : {A : Type 0} (a b : A) → decoded a ≡ decoded b → a ≡ b
decoded_same a b h = ground (arith, h)

-- The period of what the agent hears of a spec is at most the period that the subscriber asked for,
-- and less than a millisecond shorter.
pub period_heard :
    {S : Sets} (spec asked : MetricSpec S)
    → Decode.Samples.metric_spec (Encode.Samples.metric_spec spec) ≡ decoded asked
    → (period asked ≤ period spec) × (period spec ≤ period asked + (milli - 1))
period_heard spec asked h =
    rw (decoded_same asked (heard spec) (sym h ∙ metric_spec-heard spec)) (heard_period spec)
