-- ===== src/Report/WriteJsonLaws.antt =====
-- `write_json` writes the report's document.
use llm_river.Base.Int.{ℤ}
use llm_river.Base.{
  ℕ, Bool, not, Option, none, some, List, [], ◌∷◌, ◌++◌, ◌≡◌, refl, ap, ◌∙◌, Bytes, codes,
}
use llm_river.Float.{Float}
use llm_river.Json.Document.{Json, Items, Members, array, member, render}
use llm_river.Json.Values.{
  value_string-Writes, value_uint64-Writes, value_int-Writes, value_bool-Writes,
  value_double-Writes,
}
use llm_river.Json.Writes.Nested.{
  member-Completes, kv-Completes, when-Completes, object-Writes, skip-Fills, item-Fills,
  array-Writes, skip-Completes, >>_assoc,
}
use llm_river.Json.Writes.{Writes, Completes, Fills, end_object-Completes}
use llm_river.Json.{
  Action, ◌>>◌, when, key, new_writer, before_value, comma_if_needed, begin_array, end_array,
  kv_string, kv_uint64, kv_int, kv_bool, kv_double,
}
use llm_river.Report.Document.{
  of_string, of_uint, of_int, of_bool, of_double, note_member, part_member, cpu_json, point_json,
  points_json, ram_json, mlp_json, mlps_json, latency_json, disk_json, compute_json, hugepage_json,
  report_json,
}
use llm_river.Report.Structs.{
  CpuInfo, ThreadScalingPoint, RamBenchResult, MlpPoint, LatencyBenchResult, DiskBenchResult,
  ComputeBenchResult, HugepageBenchResult, Report,
}
use llm_river.Report.WriteJson.{
  is_empty, write_cpu, write_scaling_point, write_scaling_points, write_scaling, write_ram,
  write_mlp_point, write_mlp_points, write_latency, write_disk, write_compute, write_hugepage,
  section, write_document, write_json,
}

module _ {r : Action} {ms : Members} where
  -- An array as the last member before `r`, written call by call.
  array_member :
      {a : Action} {xs : Items} (k : Bytes)
      → Fills a xs
      → Completes r ms
      → Completes (key k >> (begin_array >> (a >> (end_array >> r)))) (member k (array xs) ms)
  array_member {a} k items rest =
      rw (← >>_assoc a end_array r, ← >>_assoc begin_array (a >> end_array) r)
        (member-Completes k (array-Writes items) rest)

  string_member :
      (k v : Bytes) → Completes r ms → Completes (kv_string k v >> r) (member k (of_string v) ms)
  unfolding kv_string
  string_member k v = kv-Completes k (value_string-Writes v)

  uint_member :
      (k : Bytes) (v : ℕ)
      → Completes r ms
      → Completes (kv_uint64 k v >> r) (member k (of_uint v) ms)
  unfolding kv_uint64
  uint_member k v = kv-Completes k (value_uint64-Writes v)

  int_member :
      (k : Bytes) (v : ℤ) → Completes r ms → Completes (kv_int k v >> r) (member k (of_int v) ms)
  unfolding kv_int
  int_member k v = kv-Completes k (value_int-Writes v)

  bool_member :
      (k : Bytes) (v : Bool)
      → Completes r ms
      → Completes (kv_bool k v >> r) (member k (of_bool v) ms)
  unfolding kv_bool
  bool_member k v = kv-Completes k (value_bool-Writes v)

  note_member-Completes :
      (note : Bytes)
      → Completes r ms
      → Completes
          (when (not (is_empty note)) (kv_string (codes "note") note) >> r)
          (note_member note ms)
  note_member-Completes note rest =
      when-Completes (not (is_empty note)) (kv_string (codes "note") note)
        (string_member (codes "note") note rest) rest

write_cpu-Writes : (c : CpuInfo) → Writes (write_cpu c) (cpu_json c)
unfolding write_cpu cpu_json
write_cpu-Writes c = object-Writes (
    string_member _ _ (
      int_member _ _ (
        uint_member _ _ (
          uint_member _ _ (
            uint_member _ _ (
              bool_member _ _ (
                bool_member _ _ (
                  bool_member _ _ (
                    bool_member _ _ (
                      bool_member _ _
                        (bool_member _ _ (bool_member _ _ end_object-Completes))))))))))))

module _ {ℓ} {F : Type ℓ} (float : Float F) where
  double_member :
      {r : Action} {ms : Members} (k : Bytes) (v : F)
      → Completes r ms
      → Completes (kv_double float k v >> r) (member k (of_double float v) ms)
  unfolding kv_double
  double_member k v = kv-Completes k (value_double-Writes float v)

  write_scaling_point-Writes :
      (p : ThreadScalingPoint F) → Writes (write_scaling_point float p) (point_json float p)
  unfolding write_scaling_point point_json
  write_scaling_point-Writes p =
      object-Writes (int_member _ _ (double_member _ _ (double_member _ _ end_object-Completes)))

  write_scaling_points-Fills :
      (ps : List (ThreadScalingPoint F))
      → Fills (write_scaling_points float ps) (points_json float ps)
  unfolding write_scaling_points points_json
  write_scaling_points-Fills [] = skip-Fills
  write_scaling_points-Fills (p ∷ ps) =
      item-Fills (write_scaling_point-Writes p) (write_scaling_points-Fills ps)

  scaling_member :
      {r : Action} {ms : Members} (k : Bytes) (ps : List (ThreadScalingPoint F))
      → Completes r ms
      → Completes (write_scaling float k ps >> r) (member k (array (points_json float ps)) ms)
  unfolding write_scaling
  scaling_member k ps = kv-Completes k (array-Writes (write_scaling_points-Fills ps))

  write_ram-Writes : (r : RamBenchResult F) → Writes (write_ram float r) (ram_json float r)
  unfolding write_ram ram_json
  write_ram-Writes r = object-Writes (
      uint_member _ _ (
        int_member _ _ (
          double_member _ _ (
            int_member _ _ (
              double_member _ _ (
                scaling_member _ _
                  (scaling_member _ _ (scaling_member _ _ end_object-Completes))))))))

  write_mlp_point-Writes : (p : MlpPoint F) → Writes (write_mlp_point float p) (mlp_json float p)
  unfolding write_mlp_point mlp_json
  write_mlp_point-Writes p = object-Writes (int_member _ _ (double_member _ _ end_object-Completes))

  write_mlp_points-Fills :
      (ps : List (MlpPoint F)) → Fills (write_mlp_points float ps) (mlps_json float ps)
  unfolding write_mlp_points mlps_json
  write_mlp_points-Fills [] = skip-Fills
  write_mlp_points-Fills (p ∷ ps) =
      item-Fills (write_mlp_point-Writes p) (write_mlp_points-Fills ps)

  write_latency-Writes :
      (r : LatencyBenchResult F) → Writes (write_latency float r) (latency_json float r)
  unfolding write_latency latency_json
  write_latency-Writes r = object-Writes (
      uint_member _ _ (
        double_member _ _ (
          int_member _ _ (
            double_member _ _ (
              double_member _ _
                (array_member _ (write_mlp_points-Fills r.mlp_scaling) end_object-Completes))))))

  write_disk-Writes : (r : DiskBenchResult F) → Writes (write_disk float r) (disk_json float r)
  unfolding write_disk disk_json
  write_disk-Writes r = object-Writes (
      string_member _ _ (
        uint_member _ _ (
          bool_member _ _ (
            note_member-Completes r.note (
              double_member _ _ (
                double_member _ _ (double_member _ _ (double_member _ _ end_object-Completes))))))))

  write_compute-Writes :
      (r : ComputeBenchResult F) → Writes (write_compute float r) (compute_json float r)
  unfolding write_compute compute_json
  write_compute-Writes r = object-Writes (
      bool_member _ _
        (double_member _ _ (bool_member _ _ (double_member _ _ end_object-Completes))))

  write_hugepage-Writes :
      (r : HugepageBenchResult F) → Writes (write_hugepage float r) (hugepage_json float r)
  unfolding write_hugepage hugepage_json
  write_hugepage-Writes r = object-Writes (
      bool_member _ _ (
        note_member-Completes r.note (
          uint_member _ _ (
            double_member _ _ (
              double_member _ _ (
                bool_member _ _ (
                  double_member _ _ (
                    double_member _ _
                      (double_member _ _ (double_member _ _ end_object-Completes))))))))))

  section-Completes {κ} :
      {A : Type κ} {r : Action} {ms : Members} (k : Bytes) (write : A → Action) (json : A → Json)
      (part : Option A)
      → ((a : A) → Writes (write a) (json a))
      → Completes r ms
      → Completes (section float k write part >> r) (part_member k json part ms)
  unfolding section
  section-Completes k write json none each rest = skip-Completes rest
  section-Completes k write json (some a) each rest = kv-Completes k (each a) rest

  -- In any state of the writer, the calls of `write_json` write the document of the report.
  pub write_document-Writes :
      (now : Bytes) (report : Report F)
      → Writes (write_document float now report) (report_json float now report)
  unfolding write_document report_json
  write_document-Writes now report = object-Writes (
      string_member _ _ (
        member-Completes _ (write_cpu-Writes report.cpu) (
          section-Completes _ (write_ram float) (ram_json float) report.ram write_ram-Writes (
            section-Completes _ (write_latency float) (latency_json float) report.latency
              write_latency-Writes
              (section-Completes _ (write_disk float) (disk_json float) report.disk
                write_disk-Writes
                (section-Completes _ (write_compute float) (compute_json float) report.compute
                  write_compute-Writes
                  (section-Completes _ (write_hugepage float) (hugepage_json float) report.hugepage
                    write_hugepage-Writes end_object-Completes)))))))

  -- `write_json` never pops an empty stack, and appends to the stream exactly the text of the
  -- report's document and a line break.
  pub write_json-report_json :
      (out now : Bytes) (report : Report F)
      → write_json float out now report
        ≡ some (out ++ render (report_json float now report) (b'\n' ∷ []))
  unfolding write_json
  write_json-report_json out now report =
      let (w, e, _, _, writes) = (write_document-Writes now report).run (new_writer out) in
      rw e (ap some (writes (b'\n' ∷ []) ∙ start))
    where
      start :
          (before_value (new_writer out)).out ++ render (report_json float now report) (b'\n' ∷ [])
          ≡ out ++ render (report_json float now report) (b'\n' ∷ [])
      start = unfold before_value comma_if_needed in refl
