-- ===== src/Tests.antt =====
-- Runs at concrete inputs, and the theorems at inputs that meet their hypotheses.
mod EngineRuns
mod TrafficRuns
mod DaemonRuns
mod JsonRuns
mod NetifRuns
mod AcceptRuns
mod TokenRuns
mod WholeRuns
mod HandleRuns
mod InstallRuns
