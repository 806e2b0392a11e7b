-- ===== src/Tests/Printing.antt =====
-- The report for people of a machine whose disk bench fell back.
use llm_river.Base.Decimal.{show_ℕ, show_ℕ_lem, IsDigit}
use llm_river.Base.Int.{pos}
use llm_river.Base.{ℕ, false, some, none, [], ◌∷◌, arith, Bytes, codes, All}
use llm_river.Report.Inline.{PrintsInline}
use llm_river.Report.Print.{Format}
use llm_river.Report.Structs.{Report, new_cpu_info}
use llm_river.Tests.Given.{thousandths}
use llm_river.Text.Lines.{IsLine}

abbrev pub fixed_point : Format ℕ
fixed_point = record { float = thousandths; show_fixed = show_ℕ }

digits-IsLine : (s : Bytes) → All IsDigit s → IsLine s
digits-IsLine [] h = tt
digits-IsLine (c ∷ s) ((lo, hi), hs) = (ground arith, digits-IsLine s hs)

pub fixed_point-PrintsInline : PrintsInline fixed_point
fixed_point-PrintsInline = record { inline = λ v. digits-IsLine (show_ℕ v) (show_ℕ_lem v).0 }

abbrev read_at_700 : Report ℕ
read_at_700 = record {
  cpu = record new_cpu_info { model_name = codes "Xeon"; logical_cpus = pos 8 };
  ram = some (record {
    read_scaling = record { threads = pos 1; aggregate_gbs = 700; per_thread_gbs = 700 } ∷ [];
    write_plain_scaling = [];
    write_nt_scaling = [];
    buffer_bytes_per_thread = 64;
    max_threads_tested = pos 1;
    single_thread_read_gbs = 700;
    read_saturation_threads = pos 1;
    read_saturation_gbs = 700;
  });
  latency = none;
  disk = some (record {
    file_path = codes "/tmp/f";
    file_size_bytes = 8_388_608;
    used_o_direct = false;
    note = codes "fell back";
    sequential_read_gbs = 900;
    random4k_iops = 100;
    random4k_bandwidth_mbs = 200;
    random4k_avg_latency_us = 300;
  });
  compute = none;
  hugepage = none;
}
