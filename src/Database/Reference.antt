-- ===== src/Database/Reference.antt =====
-- An engine that carries out every statement that SQL accepts.
use easysync.Prelude.{refl, Bool, [], some, if◌then◌else◌}
use easysync.Database.Schema.{Tables}
use easysync.Database.Statements.{Statement, valid, updated, answer}
use easysync.Database.Engine.{Engine, Reply, IsReliable}

abbrev pub run : Tables → Statement → Reply Tables
run t s = record {
  ok = valid s t;
  rows = if valid s t then answer s t else [];
  db = if valid s t then updated s t else t;
}

-- `reports` is the driver's feature `QuerySize`; every path opens the database `t`.
abbrev pub reference : Bool → Tables → Engine
reference reports t = record {
  Db = Tables;
  tables = λ d. d;
  exec = run;
  open_path = λ path. some t;
  query_size = reports;
  refused = λ d s h. h;
  tables-exec = λ d s. refl;
  rows-exec = λ d s. refl;
}

pub reference-IsReliable : (reports : Bool) (t : Tables) → IsReliable (reference reports t)
reference-IsReliable reports t d s h = h
