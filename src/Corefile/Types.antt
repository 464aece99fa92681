-- ===== src/Corefile/Types.antt =====
-- The parts of a Corefile that the watchers read and write (the types of corefile-migration). What
-- the library calls an option is a directive here. `parse` and `print` of the library are parameters.
use tapr.Base.{String, List}

pub record Directive : Type 0 where
  pub name : String
  pub args : List String

pub record Plugin : Type 0 where
  pub name : String
  pub args : List String
  pub options : List Directive

pub record Server : Type 0 where
  pub dom_ports : List String
  pub plugins : List Plugin

pub record Corefile : Type 0 where
  pub servers : List Server
