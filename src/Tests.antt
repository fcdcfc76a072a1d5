-- ===== src/Tests.antt =====
-- The model run on concrete inputs.
mod Data
mod Controller
mod Params
mod Provider
mod Node
mod PulumiData
mod Pulumi
mod Resources
