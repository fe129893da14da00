-- ===== src/Tests.antt =====
-- Small hosts and documents on which the program is run, and the theorems at concrete data.
mod Guests
mod Documents
mod FileRuns
mod ConfigRuns
mod NetworkRuns
mod Machines
mod VmRuns
mod Databases
mod ProcessRuns
mod ServiceRuns
mod ProcessLists
mod UiRuns
mod ThreadRuns
mod ChangeRuns
mod RowRuns
mod DumpRuns
mod LifetimeRuns
