-- ===== src/Tests.antt =====
-- The theorems at concrete inputs.
mod JoinerRuns
mod ChannelRuns
mod Controllers
mod Store
mod ClusterRuns
mod SupportCases
mod ManagerRuns
mod ExampleRuns
mod Deployments
mod Copies
