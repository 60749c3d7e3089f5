-- ===== src/Wire/RoundTrip/Projected.antt =====
-- src/wire/encode.rs and src/wire/decode.rs: a sample, from the agent to the subscriber.
use mathlib.Core.Option
use uniproc_windows_agent.Base.{
  ℕ, true, false, List, map, Option, some, ◌≡◌, refl, ap, Bool-cases, inl, inr,
}
use uniproc_windows_agent.Wire.Outcome.{decoded, each, each_sent, group, group_sent}
use uniproc_windows_agent.Sample.Metrics.{ProcessMetric, Sets}
use uniproc_windows_agent.Sample.Machine.{MachineSample, ProcessGpuEngine, only_if}
use uniproc_windows_agent.Sample.Counters.{Columns, kept}
use uniproc_windows_agent.Sample.Counters
use uniproc_windows_agent.Sample.{MetricSpec, Sample, period, project}
use uniproc_windows_agent.Wire.Schema.Samples.{ProcessColumnsMessage}
use uniproc_windows_agent.Wire.Encode
use uniproc_windows_agent.Wire.Decode
use uniproc_windows_agent.Wire.RoundTrip.Machine.{machine_groups_received, received_machine}
use uniproc_windows_agent.Wire.RoundTrip.Samples.{columns_sent, process_gpu_engine_sent}

-- A sample as a subscriber that asked for `wanted` has it.
abbrev pub received : {S : Sets} → MetricSpec S → Sample S → Sample S
received wanted sample = record sample {
  period = period wanted;
  machine = received_machine sample.machine;
}

module _ {S : Sets} (wanted : MetricSpec S) (sample : Sample S) where
  engines_sent :
      (o : Option (List ProcessGpuEngine))
      → group
          (each (λ e. decoded (Decode.Samples.process_gpu_engine e)))
          (Option.map (λ es. some (map Encode.Samples.process_gpu_engine es)) o)
        ≡ decoded o
  engines_sent o =
      group_sent (each (λ e. decoded (Decode.Samples.process_gpu_engine e)))
        (map Encode.Samples.process_gpu_engine)
        (each_sent (λ e. decoded (Decode.Samples.process_gpu_engine e))
          Encode.Samples.process_gpu_engine (λ e. ap decoded (process_gpu_engine_sent e)))
        o

  -- A subscriber that wants no column has none.
  no_columns_sent :
      S.process.is_empty wanted.processes ≡ true
      → Decode.Samples.columns
          (Encode.Samples.no_columns sample.snapshot sample.sampled_at sample.passport_etag)
        ≡ decoded (Counters.project S wanted.processes sample.columns)
  unfolding Decode.Samples.columns Decode.Samples.column Encode.Samples.no_columns group
      Counters.project kept
  no_columns_sent h =
      let none_wanted : S.process.contains wanted.processes ≡ (λ m. false) =
        λ i m. (S.process.is_empty_iff wanted.processes).0 h m i in
      rw none_wanted refl

  no_rows_sent :
      S.process.is_empty wanted.processes ≡ true
      → Decode.Samples.sample
          (Encode.Samples.process_columns (project wanted sample))
          (Encode.Samples.machine_sample (project wanted sample))
          wanted
        ≡ decoded (received wanted (project wanted sample))
  unfolding Decode.Samples.sample Encode.Samples.process_columns Encode.Samples.machine_sample
      project only_if group Encode.Samples.no_columns
  no_rows_sent e =
      let absent = (S.process.is_empty_iff wanted.processes).0 e ProcessMetric.gpu_engines in
      rw (e, no_columns_sent e, machine_groups_received, absent) refl

  -- The message of a subscriber that wants some column.
  full :
      (out : ProcessColumnsMessage) (m : MachineSample)
      → out ≡ Encode.Samples.no_columns sample.snapshot sample.sampled_at sample.passport_etag
      → (pids sequence_numbers : List ℕ) (c : Columns) (engines : Option (List ProcessGpuEngine))
      → Decode.Samples.sample
          (Encode.Samples.all_columns out pids sequence_numbers c engines)
          (Encode.Machine.machine_groups sample.snapshot sample.sampled_at m)
          wanted
        ≡ decoded (record {
          snapshot = sample.snapshot;
          sampled_at = sample.sampled_at;
          period = period wanted;
          wanted = wanted;
          passport_etag = sample.passport_etag;
          pids = pids;
          sequence_numbers = sequence_numbers;
          columns = c;
          gpu_engines = engines;
          machine = received_machine m;
        })
  unfolding Decode.Samples.sample Encode.Samples.all_columns Encode.Samples.no_columns
  full out m same pids sequence_numbers c engines =
      rw
        (
          columns_sent out pids sequence_numbers c engines,
          engines_sent engines,
          machine_groups_received sample.snapshot sample.sampled_at m,
          same,
        )
        refl

  rows_sent :
      S.process.is_empty wanted.processes ≡ false
      → Decode.Samples.sample
          (Encode.Samples.process_columns (project wanted sample))
          (Encode.Samples.machine_sample (project wanted sample))
          wanted
        ≡ decoded (received wanted (project wanted sample))
  unfolding Encode.Samples.process_columns Encode.Samples.machine_sample project
  rows_sent e = rw e (
      full (Encode.Samples.no_columns sample.snapshot sample.sampled_at sample.passport_etag)
        (project wanted sample).machine refl sample.pids sample.sequence_numbers
        (project wanted sample).columns (project wanted sample).gpu_engines)

  -- A sample projected to what a subscriber asked for arrives with its columns as they were sent,
  -- none of them where it asked for none, with the period that the subscriber asked for, and with
  -- the counters of the machine, but for an empty name of the processor, a count that is the
  -- largest of its type and a temperature that is not finite, which arrive as none.
  pub sample_sent :
      Decode.Samples.sample
        (Encode.Samples.process_columns (project wanted sample))
        (Encode.Samples.machine_sample (project wanted sample))
        wanted
      ≡ decoded (received wanted (project wanted sample))
  sample_sent = elim (Bool-cases (S.process.is_empty wanted.processes)) [
    | inl e ↦ no_rows_sent e
    | inr e ↦ rows_sent e
  ]
