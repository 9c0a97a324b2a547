-- ===== src/Config/Tests.antt =====
-- A viper without an environment and without a file, on which everything has its default.
use amqplex.Base.{◌≡◌, refl, arith, false, [], none}
use amqplex.Config.{Viper}
use amqplex.Config.Documented.{Environment, ConfigFile, IsDocumented, last_string, last_int}
use amqplex.Config.Loads.{from_sources, made_calls, searched}

abbrev pub bare : Viper
bare = record {
  read_error = λ h. none;
  get_string = λ h key. last_string h key [];
  get_int = λ h key. last_int h key 0;
  get_bool = λ h key. false;
}

abbrev pub unset : Environment
unset = record { string = λ name. none; int = λ name. none; bool = λ name. none }

abbrev pub no_file : ConfigFile
no_file = record { string = λ h key. none; int = λ h key. none; bool = λ h key. none }

pub bare-IsDocumented : IsDocumented bare unset no_file
bare-IsDocumented = record {
  strings = λ h key. ground arith;
  ints = λ h key. ground arith;
  bools = λ h key. ground arith;
}

-- The README's defaults.
port_by_default : (from_sources unset no_file (made_calls searched)).listen_port ≡ 5673
port_by_default = refl
