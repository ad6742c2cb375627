-- ===== src/Runs.antt =====
-- Runs of the models at concrete inputs.
mod Toy
mod ProtocolRuns
mod ClientRuns
mod ServerRuns
mod CtlRuns
mod FlowRuns
mod ContractRuns
mod StartRuns
mod RequestRuns
